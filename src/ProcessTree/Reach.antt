-- ===== src/ProcessTree/Reach.antt =====
-- The walk ends, and finds the processes that descend from the root.
use rustcopy.Base.{
  length-append, append-nil, ℕ, zero, suc, ◌+◌, ◌≤◌, ◌≡◌, ◌↔◌, inl, inr, refl, ◌∙◌, sym, ap, subst,
  true, false, some, List, [], ◌∷◌, ◌++◌, ◌==◌, nat_eq, contains, length, arith, Bool-cases,
  eq_of_test, append_assoc,
}
use rustcopy.ProcessTree.Table.{
  IsListed, Descends, itself, child, NoRepeat, contains-append, NoRepeat-snoc, unseen, unseen-taken,
  unseen-length,
}
use rustcopy.ProcessTree.{Walk, is_new_child, take_children, walk, descendants}

-- What a walk keeps: all that is seen descends and is found, nothing is found twice, and there is
-- fuel for the rest.
pub record Going (root : ℕ) (processes : List (ℕ × ℕ)) (visited pending seen : List ℕ) (fuel : ℕ)
    : Type 0 where
  pub sound : (x : ℕ) → contains seen x ≡ true → Descends root processes x
  pub found : (x : ℕ) → contains seen x ≡ contains (visited ++ pending) x
  pub no_repeat : NoRepeat (visited ++ pending)
  pub root_seen : contains seen root ≡ true
  pub fuelled : length pending + unseen seen processes ≤ fuel

-- A child of a seen parent that is not new has been seen.
old_seen :
    (parent : ℕ) (process : ℕ × ℕ) (seen : List ℕ)
    → is_new_child parent process seen ≡ false
    → process.1 ≡ parent
    → contains seen parent ≡ true
    → contains seen process.0 ≡ true
unfolding nat_eq
old_seen parent process seen old same known = elim (Bool-cases (process.0 == parent)) [
  | inl loops ↦ subst (λ x. contains seen x ≡ true) (sym (eq_of_test process.0 parent loops)) known
  | inr differs ↦ ground (arith, old, same, differs)
]

module _ (root : ℕ) (processes : List (ℕ × ℕ)) where
  popped :
      (visited : List ℕ) (parent : ℕ) (pending seen : List ℕ) (fuel : ℕ)
      → Going root processes visited (parent ∷ pending) seen (suc fuel)
      → Going root processes (visited ++ (parent ∷ [])) pending seen fuel
  popped visited parent pending seen fuel g =
      let same : (visited ++ (parent ∷ [])) ++ pending ≡ visited ++ (parent ∷ pending) =
        append_assoc visited (parent ∷ []) pending in
      record {
        sound = g.sound;
        found = λ x. g.found x ∙ ap (λ l. contains l x) (sym same);
        no_repeat = subst NoRepeat (sym same) g.no_repeat;
        root_seen = g.root_seen;
        fuelled = omega (arith, g.fuelled);
      }

  child_taken :
      (parent : ℕ) (process : ℕ × ℕ) (visited pending seen : List ℕ) (fuel : ℕ)
      → Descends root processes parent
      → IsListed processes process.0 process.1
      → is_new_child parent process seen ≡ true
      → Going root processes visited pending seen fuel
      → Going root processes visited (pending ++ (process.0 ∷ [])) (process.0 ∷ seen) fuel
  unfolding nat_eq
  child_taken parent process visited pending seen fuel d listed new g =
      let same : (visited ++ pending) ++ (process.0 ∷ [])
          ≡ visited ++ (pending ++ (process.0 ∷ [])) =
        append_assoc visited pending (process.0 ∷ []) in
      let fresh : contains seen process.0 ≡ false = ground (arith, new) in
      record {
        sound = λ x h. elim (Bool-cases (x == process.0)) [
          | inl taken ↦ subst (Descends root processes) (sym (eq_of_test x process.0 taken)) (
              child process.0 parent d (
                subst (IsListed processes process.0)
                  (eq_of_test process.1 parent (ground (arith, new))) listed))
          | inr differs ↦ g.sound x (ground (arith, h, differs))
        ];
        found = λ x.
            ground (arith, g.found x, contains-append (visited ++ pending) (process.0 ∷ []) x)
            ∙ ap (λ l. contains l x) same;
        no_repeat = subst NoRepeat same (
            NoRepeat-snoc (visited ++ pending) process.0 g.no_repeat
              (sym (g.found process.0) ∙ fresh));
        root_seen = ground (arith, g.root_seen);
        fuelled = omega (
          arith,
          g.fuelled,
          length-append pending (process.0 ∷ []),
          unseen-taken seen processes process.0 process.1 listed fresh,
        );
      }

  -- The pass over a part of the table, with what has been seen before.
  record Passed (parent : ℕ) (part : List (ℕ × ℕ)) (visited seen : List ℕ) (fuel : ℕ) (w : Walk)
      : Type 0 where
    going : Going root processes visited w.pending w.seen fuel
    keeps : (x : ℕ) → contains seen x ≡ true → contains w.seen x ≡ true
    closed : (pid : ℕ) → IsListed part pid parent → contains w.seen pid ≡ true

  pass-Passed :
      (parent : ℕ) (part : List (ℕ × ℕ)) (visited : List ℕ) (w : Walk) (fuel : ℕ)
      → Descends root processes parent
      → contains w.seen parent ≡ true
      → ((pid ppid : ℕ) → IsListed part pid ppid → IsListed processes pid ppid)
      → Going root processes visited w.pending w.seen fuel
      → Passed parent part visited w.seen fuel (take_children parent part w)
  unfolding take_children nat_eq
  pass-Passed parent [] visited w fuel d seen sub g = record {
    going = g;
    keeps = λ x h. h;
    closed = λ pid h. absurd h;
  }
  pass-Passed parent (process ∷ part) visited w fuel d seen sub g =
      elim (Bool-cases (is_new_child parent process w.seen)) [
        | inl new ↦
            let rec =
              pass-Passed parent part visited
                (record { pending = w.pending ++ (process.0 ∷ []); seen = process.0 ∷ w.seen }) fuel
                d (ground (arith, seen)) (λ pid ppid l. sub pid ppid (inr l))
                (child_taken parent process visited w.pending w.seen fuel d
                  (sub process.0 process.1 (inl (refl, refl))) new g) in
            rw new (record {
              going = rec.going;
              keeps = λ x h. rec.keeps x (ground (arith, h));
              closed = λ pid l. elim l [
                | inl (same, _) ↦ rec.keeps pid (ground (arith, same))
                | inr later ↦ rec.closed pid later
              ];
            })
        | inr old ↦
            let rec =
              pass-Passed parent part visited w fuel d seen (λ pid ppid l. sub pid ppid (inr l))
                g in
            rw old (record {
              going = rec.going;
              keeps = rec.keeps;
              closed = λ pid l. elim l [
                | inl (same, of_parent) ↦ rec.keeps pid (
                    subst (λ x. contains w.seen x ≡ true) same
                      (old_seen parent process w.seen old of_parent seen))
                | inr later ↦ rec.closed pid later
              ];
            })
      ]

  -- Nothing that is visited has a child that is not seen.
  abbrev pub Closed : List ℕ → List ℕ → Type 0
  Closed visited seen =
      (parent pid : ℕ)
      → contains visited parent ≡ true
      → IsListed processes pid parent
      → contains seen pid ≡ true

  all_seen :
      (seen : List ℕ) (x : ℕ)
      → contains seen root ≡ true
      → Closed seen seen
      → Descends root processes x
      → contains seen x ≡ true
  all_seen seen _ known closed itself = known
  all_seen seen _ known closed (child pid parent d listed) =
      closed parent pid (all_seen seen parent known closed d) listed

  -- What the walk gives.
  record Complete (found : List ℕ) : Type 0 where
    reaches : (x : ℕ) → (contains found x ≡ true) ↔ Descends root processes x
    no_repeat : NoRepeat found

  walk-Complete :
      (fuel : ℕ) (visited pending seen : List ℕ)
      → Going root processes visited pending seen fuel
      → Closed visited seen
      → (found : List ℕ) × (walk fuel processes visited pending seen ≡ some found) × Complete found
  unfolding walk nat_eq
  walk-Complete fuel visited [] seen g closed =
      let same : visited ++ [] ≡ visited = append-nil visited in
      let in_found : (x : ℕ) → contains seen x ≡ contains visited x =
        λ x. g.found x ∙ ap (λ l. contains l x) same in
      (
        visited,
        refl,
        record {
          reaches = λ x. (
            λ h. g.sound x (in_found x ∙ h),
            λ d.
                sym (in_found x)
                ∙ all_seen seen x g.root_seen
                    (λ parent pid v l. closed parent pid (sym (in_found parent) ∙ v) l) d,
          );
          no_repeat = subst NoRepeat same g.no_repeat;
        },
      )
  walk-Complete zero visited (parent ∷ pending) seen g closed = absurd (omega (arith, g.fuelled))
  walk-Complete (suc fuel) visited (parent ∷ pending) seen g closed =
      let known : contains seen parent ≡ true =
        g.found parent ∙ ground (arith, contains-append visited (parent ∷ pending) parent) in
      let passed =
        pass-Passed parent processes (visited ++ (parent ∷ []))
          (record { pending = pending; seen = seen }) fuel (g.sound parent known) known (λ _ _ l. l)
          (popped visited parent pending seen fuel g) in
      walk-Complete fuel (visited ++ (parent ∷ [])) _ _ passed.going (λ q pid v l.
        elim (Bool-cases (q == parent)) [
          | inl same ↦
              passed.closed pid (subst (IsListed processes pid) (eq_of_test q parent same) l)
          | inr differs ↦
              passed.keeps pid (
                closed q pid (ground (arith, v, contains-append visited (parent ∷ []) q, differs))
                  l)
        ])

-- The walk ends, for every table of the machine's processes, loops in it included, and finds the
-- root and every process that descends from it, no other, and none twice.
pub descendants_lem :
    (root : ℕ) (processes : List (ℕ × ℕ))
    → (found : List ℕ) × (descendants root processes ≡ some found)
      × ((x : ℕ) → (contains found x ≡ true) ↔ Descends root processes x)
      × NoRepeat found
unfolding descendants nat_eq
descendants_lem root processes =
    let start : Going root processes [] (root ∷ []) (root ∷ []) (suc (length processes)) = record {
      sound = λ x h.
          subst (Descends root processes) (sym (eq_of_test x root (ground (arith, h)))) itself;
      found = λ x. refl;
      no_repeat = (refl, tt);
      root_seen = ground arith;
      fuelled = omega (arith, unseen-length (root ∷ []) processes);
    } in
    let (found, ends, complete) =
      walk-Complete root processes (suc (length processes)) [] (root ∷ []) (root ∷ []) start
        (λ parent pid v l. cc v) in
    (found, ends, complete.reaches, complete.no_repeat)
