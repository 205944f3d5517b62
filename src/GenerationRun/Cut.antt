-- ===== src/GenerationRun/Cut.antt =====
-- What a purge, done or stopped, makes of a history with a live part.
use rustcopy.Base.{
  ◌≡◌, ◌∙◌, refl, sym, ap, subst, String, true, false, List, [], ◌∷◌, ◌++◌, map, contains,
  string_eq, inl, inr, ◌⊎◌,
}
use rustcopy.Generations.{Generation}
use rustcopy.Generations.Retention.{
  id_of, NodupIds, NodupIds-right, Fresh, Fresh-ids, Listed, Listed-ids,
}
use rustcopy.Generations.Index.{CutsWell, CutsFull}
use rustcopy.GenerationRun.Made.{Folder, Made}
use rustcopy.GenerationRun.Pruned.{Made-suffix}
use rustcopy.GenerationRun.Live.{
  Lives, All-right, Listed-more, Listed-other, Fresh-both, Made-agree,
}

-- Of two ways to cut one list, one cuts earlier.
abbrev Cross : List Generation → List Generation → List Generation → List Generation → Type 0
Cross xs ys pre live =
    ((mid : List Generation) × (pre ≡ xs ++ mid) × (ys ≡ mid ++ live))
    ⊎ ((mid : List Generation) × (xs ≡ pre ++ mid) × (live ≡ mid ++ ys))

cons_injective :
    (x y : Generation) (xs ys : List Generation) → x ∷ xs ≡ y ∷ ys → (x ≡ y) × (xs ≡ ys)
cons_injective x y xs ys h = (cc, cc)

cross : (xs ys pre live : List Generation) → xs ++ ys ≡ pre ++ live → Cross xs ys pre live
cross [] ys pre live h = inl (pre, refl, h)
cross (x ∷ xs) ys [] live h = inr (x ∷ xs, refl, sym h)
cross (x ∷ xs) ys (p ∷ pre) live h =
    let (same, rest) = cons_injective x p (xs ++ ys) (pre ++ live) h in
    elim (cross xs ys pre live rest) [
      | inl (mid, a, b) ↦ inl (mid, ap (λ l. p ∷ l) a ∙ ap (λ q. q ∷ xs ++ mid) (sym same), b)
      | inr (mid, a, b) ↦ inr (mid, ap (λ l. x ∷ l) a ∙ ap (λ q. q ∷ pre ++ mid) same, b)
    ]

append_nil_left : (xs ys : List Generation) → xs ++ ys ≡ [] → xs ≡ []
append_nil_left [] ys h = refl
append_nil_left (x ∷ xs) ys h = cc

append_nil_right : (xs ys : List Generation) → xs ++ ys ≡ [] → ys ≡ []
append_nil_right [] ys h = h
append_nil_right (x ∷ xs) ys h = cc

module _ (folder folder' : Folder) (gens : List Generation) (lost : List String)
    (s : Lives folder gens lost) (out kept : List Generation) (ids : List String)
    (whole : gens ≡ out ++ kept) (taken : ids ≡ map id_of out)
    (agree : (j : String) → contains ids j ≡ false → folder' j ≡ folder j) where
  nodup : NodupIds (out ++ kept)
  nodup = subst NodupIds whole s.ids

  Fresh-kept : Fresh ids kept
  Fresh-kept = subst (λ l. Fresh l kept) (sym taken) (Fresh-ids out kept nodup)

  crossed : Cross out kept s.pre s.live
  crossed = cross out kept s.pre s.live (sym whole ∙ s.whole)

  CutsFull-left :
      (mid : List Generation) → s.pre ≡ out ++ mid → CutsFull s.pre s.live → CutsFull mid s.live
  CutsFull-left mid a (inl nothing) = inl (append_nil_right out mid (sym a ∙ nothing))
  CutsFull-left mid a (inr starts) = inr starts

  CutsWell-right :
      (mid : List Generation) → out ≡ s.pre ++ mid → CutsWell out kept → CutsWell mid kept
  CutsWell-right mid a (inl nothing) = inl (append_nil_right s.pre mid (sym a ∙ nothing))
  CutsWell-right mid a (inr other) = inr other

  Made-early : (mid : List Generation) → kept ≡ mid ++ s.live → Made folder' s.live
  Made-early mid b =
      Made-agree folder folder' ids s.live agree
        (All-right (λ g. contains ids g.id ≡ false) mid s.live (subst (Fresh ids) b Fresh-kept))
        s.made

  Made-late :
      (mid : List Generation)
      → out ≡ s.pre ++ mid
      → s.live ≡ mid ++ kept
      → CutsWell out kept
      → Made folder' kept
  Made-late mid a b cuts =
      Made-agree folder folder' ids kept agree Fresh-kept
        (Made-suffix folder mid kept (CutsWell-right mid a cuts) (subst (Made folder) b s.made))

  -- The purge went through: what it kept is the history.
  pub Lives-kept : CutsWell out kept → Lives folder' kept lost
  Lives-kept cuts = elim crossed [
    | inl (mid, a, b) ↦ record {
      pre = mid;
      live = s.live;
      whole = b;
      ids = NodupIds-right out kept nodup;
      cut = CutsFull-left mid a s.cut;
      gone = All-right (λ g. contains lost g.id ≡ true) out mid (subst (Listed lost) a s.gone);
      apart = s.apart;
      made = Made-early mid b;
    }
    | inr (mid, a, b) ↦ record {
      pre = [];
      live = kept;
      whole = refl;
      ids = NodupIds-right out kept nodup;
      cut = inl refl;
      gone = tt;
      apart = All-right (λ g. contains lost g.id ≡ false) mid kept (subst (Fresh lost) b s.apart);
      made = Made-late mid a b cuts;
    }
  ]

  -- The purge stopped: the history is as it was, and the ids that were to go are lost.
  pub Lives-stopped : CutsWell out kept → CutsFull out kept → Lives folder' gens (lost ++ ids)
  Lives-stopped cuts stays = elim crossed [
    | inl (mid, a, b) ↦ record {
      pre = s.pre;
      live = s.live;
      whole = s.whole;
      ids = s.ids;
      cut = s.cut;
      gone = Listed-more lost ids s.pre s.gone;
      apart =
          Fresh-both lost ids s.live s.apart (
            All-right (λ g. contains ids g.id ≡ false) mid s.live (subst (Fresh ids) b Fresh-kept));
      made = Made-early mid b;
    }
    | inr (mid, a, b) ↦ record {
      pre = out;
      live = kept;
      whole = whole;
      ids = s.ids;
      cut = stays;
      gone = Listed-other lost ids out (subst (λ l. Listed l out) (sym taken) (Listed-ids out));
      apart =
          Fresh-both lost ids kept
            (All-right (λ g. contains lost g.id ≡ false) mid kept (subst (Fresh lost) b s.apart))
            Fresh-kept;
      made = Made-late mid a b cuts;
    }
  ]
