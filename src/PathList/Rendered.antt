-- ===== src/PathList/Rendered.antt =====
-- A list of paths that has been written is read back.
use rustcopy.Base.{
  ◌≡◌, refl, ◌∙◌, ap, Bool, false, not, some, List, [], ◌∷◌, map, keep_if, All, ◌==◌, nat_eq,
}
use rustcopy.Text.{
  Text, newline, trim, is_empty, lines_from, OneLine, lines_from-append, lines_from-newline,
}
use rustcopy.Safety.{without_bom}
use rustcopy.PathList.{read_paths, render_paths}

abbrev pub starts_with_bom : Text → Bool
starts_with_bom [] = false
starts_with_bom (c ∷ t) = c == 0xFEFF

-- A path that a line can hold.
pub record IsListed (path : Text) : Type 0 where
  pub one_line : OneLine path
  pub trimmed : trim path ≡ path
  pub not_empty : is_empty path ≡ false
  pub no_bom : starts_with_bom path ≡ false

lines_from-render :
    (paths : List Text) → All IsListed paths → lines_from [] (render_paths paths) ≡ paths
unfolding render_paths
lines_from-render [] h = unfold lines_from in refl
lines_from-render (path ∷ paths) (h, hs) =
    lines_from-append [] path (newline ∷ render_paths paths) h.one_line
    ∙ lines_from-newline path (render_paths paths)
    ∙ ap (λ ls. path ∷ ls) (lines_from-render paths hs)

kept_lines :
    (paths : List Text)
    → All IsListed paths
    → keep_if (λ line. not (is_empty line)) (map trim paths) ≡ paths
kept_lines [] h = refl
kept_lines (path ∷ paths) (h, hs) =
    rw h.trimmed (rw h.not_empty (ap (λ ls. path ∷ ls) (kept_lines paths hs)))

without_bom-render :
    (paths : List Text) → All IsListed paths → without_bom (render_paths paths) ≡ render_paths paths
unfolding render_paths without_bom
without_bom-render [] h = refl
without_bom-render ([] ∷ paths) (h, hs) = cc (h.not_empty)
without_bom-render ((c ∷ path) ∷ paths) (h, hs) = rw h.no_bom refl

pub read-render :
    (paths : List Text) → All IsListed paths → read_paths (some (render_paths paths)) ≡ paths
unfolding read_paths
read-render paths h =
    ap (λ t. keep_if (λ line. not (is_empty line)) (map trim (lines_from [] t)))
      (without_bom-render paths h)
    ∙ ap (λ ls. keep_if (λ line. not (is_empty line)) (map trim ls)) (lines_from-render paths h)
    ∙ kept_lines paths h
