-- ===== src/Widgets/Names.antt =====
-- The name patterns of fastapi_admin_kit/widgets/registry.py.
use fastapi_admin_kit.Base.{
  ℕ, String, Bool, not, ◌&&◌, ◌||◌, none, some, List, [], ◌∷◌, ◌++◌, any, keep, codes,
  if◌then◌else◌, ◌≡◌, arith,
}
use fastapi_admin_kit.Base.Text.{Unicode, eq_codes, eq_codes_iff, is_infix}
use fastapi_admin_kit.Widgets.{
  WidgetRegistry, register_name, unregister_name, has_name, find_pattern,
}

any-append_one :
    (a : List ℕ) (w : String) (b : List ℕ) (ps : List (List ℕ × String))
    → any (λ p. eq_codes p.0 b) (ps ++ (a, w) ∷ []) ≡ any (λ p. eq_codes p.0 b) ps || eq_codes a b
any-append_one a w b [] = ground arith
any-append_one a w b ((p, v) ∷ ps) = ground (arith, any-append_one a w b ps)

any-keep_others :
    (a b : List ℕ) (ps : List (List ℕ × String))
    → any (λ p. eq_codes p.0 b) (keep (λ p. not (eq_codes p.0 a)) ps)
      ≡ any (λ p. eq_codes p.0 b) ps && not (eq_codes a b)
any-keep_others a b [] = ground arith
any-keep_others a b ((p, v) ∷ ps) =
    ground (arith, any-keep_others a b ps, eq_codes_iff p a, eq_codes_iff p b, eq_codes_iff a b)

find_pattern-append_one :
    (name a : List ℕ) (w : String) (ps : List (List ℕ × String))
    → find_pattern name (ps ++ (a, w) ∷ []) ≡ (elim (find_pattern name ps) [
      | some v ↦ some v
      | none ↦ if is_infix a name then some w else none
    ])
unfolding find_pattern
find_pattern-append_one name a w [] = ground arith
find_pattern-append_one name a w ((p, v) ∷ ps) = ground (arith, find_pattern-append_one name a w ps)

-- Two patterns that are the same but for case.
abbrev pub is_same_name : Unicode → String → String → Bool
is_same_name u p q = eq_codes (u.lower (codes p)) (u.lower (codes q))

-- Registering a pattern adds it, and gives its widget to the names that contain it and that no earlier
-- pattern covers; taking a pattern out takes out all its registrations, whatever their case, and
-- leaves the other patterns registered.
pub has_name-unregister_name :
    (u : Unicode) (p q w : String) (name : List ℕ) (r : WidgetRegistry)
    → (has_name u q (register_name u p w r) ≡ has_name u q r || is_same_name u p q)
      × (has_name u q (unregister_name u p r) ≡ has_name u q r && not (is_same_name u p q))
      × (find_pattern name (register_name u p w r).name_patterns
          ≡ (elim (find_pattern name r.name_patterns) [
            | some v ↦ some v
            | none ↦ if is_infix (u.lower (codes p)) name then some w else none
          ]))
unfolding has_name register_name unregister_name
has_name-unregister_name u p q w name r = (
  any-append_one (u.lower (codes p)) w (u.lower (codes q)) r.name_patterns,
  any-keep_others (u.lower (codes p)) (u.lower (codes q)) r.name_patterns,
  find_pattern-append_one name (u.lower (codes p)) w r.name_patterns,
)
