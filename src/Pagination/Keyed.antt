-- ===== src/Pagination/Keyed.antt =====
-- Cursors over the in-memory backend, fastapi_admin_kit/pagination/cursor.py over
-- fastapi_admin_kit/backends/memory.py: statements without a sort, whose rows hold numbers in the
-- column of the cursor.
use fastapi_admin_kit.Base.{
  ℕ, String, Bool, true, false, some, List, [], ◌∷◌, ◌++◌, map, keep, ltb, All, All-keep, ◌≡◌, refl,
  sym, ap, ◌∙◌, arith, inl, inr, Bool-cases, is_truthy,
}
use fastapi_admin_kit.Base.Int.{pos}
use fastapi_admin_kit.Base.Dict.{IsDict, lookup, lookup_or}
use fastapi_admin_kit.Base.Result.{Result, ok, err, ◌>>=◌, bind-eq-ok, keep_result}
use fastapi_admin_kit.Base.Text.{Unicode}
use fastapi_admin_kit.Base.Value.{Value, null, int, lt_value}
use fastapi_admin_kit.Memory.Query.{Model, Obj, MemColumn, MemQuery, Condition, expr, gt}
use fastapi_admin_kit.Memory.Column
use fastapi_admin_kit.Memory.Adapter
use fastapi_admin_kit.Memory.Match.{matches, matches_test}
use fastapi_admin_kit.Memory.Rows.{Record, satisfies, sort_orders, query_rows}
use fastapi_admin_kit.Memory.Action.{Store}
use fastapi_admin_kit.Memory.Session.{table_of, reconstruct}
use fastapi_admin_kit.Memory.Crud.{set_all-append}
use fastapi_admin_kit.Memory.Selection.{
  Selected, done, hit, miss, keep_result-Selected, keep_result_of_Selected,
}
use fastapi_admin_kit.Pagination.{BackendLaws}
use fastapi_admin_kit.Pagination.Cursor.{Codec}
use fastapi_admin_kit.Pagination.Walk.{CursorLaws}
use fastapi_admin_kit.Pagination.Stored.{
  attribute_of, memory_backend, memory_rows, IsOpen, count-IsOpen, memory_rows_lem, memory_laws,
}

abbrev natural_of : Value → ℕ
natural_of (int (pos n)) = n
natural_of other = 0

-- The number that an instance has in the column.
unfoldable pub key_of : MemColumn → Obj → ℕ
unfolding Column.get
key_of c obj = natural_of (Column.get c obj)

abbrev number : MemColumn → Record → ℕ
number c r = natural_of (lookup_or c.name null r)

abbrev pub HasNumber : MemColumn → Record → Type 0
HasNumber c r = IsDict r × (n : ℕ) × (lookup_or c.name null r ≡ int (pos n))

abbrev above : MemColumn → ℕ → Condition
above c v = expr (record { name = c.name; test = gt (int (pos v)) })

module _ (u : Unicode) where
  bind-sort_none : (step : Result (List Record)) → (step >>= sort_orders []) ≡ step
  unfolding sort_orders
  bind-sort_none (err e) = refl
  bind-sort_none (ok rows) = refl

  query_rows-unsorted :
      (q : MemQuery) (table : List Record)
      → q.orders ≡ []
      → query_rows u q table ≡ keep_result (satisfies u q.predicates) table
  unfolding query_rows
  query_rows-unsorted q table e =
      ap (λ os. keep_result (satisfies u q.predicates) table >>= sort_orders os) e
      ∙ bind-sort_none (keep_result (satisfies u q.predicates) table)

  matches-above :
      (c : MemColumn) (v : ℕ) (r : Record)
      → HasNumber c r
      → matches u r (above c v) ≡ ok (ltb v (number c r))
  unfolding matches matches_test lt_value
  matches-above c v r (d, n, e) = ground (arith, e)

  satisfies-append_true :
      (c : Condition) (b : Bool) (r : Record) (ps : List Condition)
      → satisfies u ps r ≡ ok true
      → matches u r c ≡ ok b
      → satisfies u (ps ++ c ∷ []) r ≡ ok b
  satisfies-append_true c true r [] h m = rw m refl
  satisfies-append_true c false r [] h m = rw m refl
  satisfies-append_true c b r (p ∷ ps) h m =
      let (passed, e, h') = bind-eq-ok (matches u r p) _ h in
      elim (Bool-cases passed) [
        | inl t ↦
            let rest : satisfies u ps r ≡ ok true = rw t at h' in
            rw (e, t) (satisfies-append_true c b r ps rest m)
        | inr f ↦ let never : ok false ≡ ok true = rw f at h' in absurd cc
      ]

  satisfies-append_false :
      (c : Condition) (r : Record) (ps : List Condition)
      → satisfies u ps r ≡ ok false
      → satisfies u (ps ++ c ∷ []) r ≡ ok false
  satisfies-append_false c r [] h = absurd cc
  satisfies-append_false c r (p ∷ ps) h =
      let (passed, e, h') = bind-eq-ok (matches u r p) _ h in
      elim (Bool-cases passed) [
        | inl t ↦
            let rest : satisfies u ps r ≡ ok false = rw t at h' in
            rw (e, t) (satisfies-append_false c r ps rest)
        | inr f ↦ rw (e, f) refl
      ]

  Selected-append :
      (ps : List Condition) (c : Condition) (p : Record → Bool) {rows kept : List Record}
      → Selected u ps rows kept
      → All (λ r. matches u r c ≡ ok (p r)) kept
      → Selected u (ps ++ c ∷ []) rows (keep p kept)
  Selected-append ps c p done h = done
  Selected-append ps c p (hit {r} t s) (m, h) = elim (Bool-cases (p r)) [
    | inl kept_too ↦
        rw (keep, kept_too)
          (hit (satisfies-append_true c true r ps t (m ∙ ap ok kept_too))
            (Selected-append ps c p s h))
    | inr left_out ↦
        rw (keep, left_out)
          (miss (satisfies-append_true c false r ps t (m ∙ ap ok left_out))
            (Selected-append ps c p s h))
  ]
  Selected-append ps c p (miss {r} f s) h =
      miss (satisfies-append_false c r ps f) (Selected-append ps c p s h)

All-map :
    {A : Type 0} (P Q : A → Type 0) → ((x : A) → P x → Q x) → (xs : List A) → All P xs → All Q xs
All-map P Q f [] h = tt
All-map P Q f (x ∷ xs) (p, h) = (f x p, All-map P Q f xs h)

get-reconstruct :
    (c : MemColumn) (m : Model) (r : Record)
    → IsDict r
    → Column.get c (reconstruct m r) ≡ lookup_or c.name null r
unfolding Column.get reconstruct
get-reconstruct c m r d = ap (lookup_or c.name null) (set_all-append r [] d)

key_of-reconstruct :
    (c : MemColumn) (m : Model) (r : Record) → IsDict r → key_of c (reconstruct m r) ≡ number c r
unfolding key_of
key_of-reconstruct c m r d = ap natural_of (get-reconstruct c m r d)

keep-reconstruct :
    (c : MemColumn) (m : Model) (v : ℕ) (found : List Record)
    → All (HasNumber c) found
    → map (reconstruct m) (keep (λ r. ltb v (number c r)) found)
      ≡ keep (λ x. ltb v (key_of c x)) (map (reconstruct m) found)
keep-reconstruct c m v [] h = refl
keep-reconstruct c m v (r ∷ rs) ((d, n, e), h) =
    ground (arith, key_of-reconstruct c m r d, keep-reconstruct c m v rs h)

attribute_of-reconstruct :
    (c : MemColumn) (name : String) (m : Model) (found : List Record)
    → lookup name m.columns ≡ some c
    → All (HasNumber c) found
    → All (λ x. attribute_of x name ≡ ok (int (pos (key_of c x)))) (map (reconstruct m) found)
unfolding attribute_of key_of reconstruct
attribute_of-reconstruct c name m [] h k = tt
attribute_of-reconstruct c name m (r ∷ rs) h ((d, n, e), k) =
    let value = get-reconstruct c m r d ∙ e in
    (
      rw h (ap ok (value ∙ ap (λ v. int (pos (natural_of v))) (sym value))),
      attribute_of-reconstruct c name m rs h k,
    )

module _ (u : Unicode) (s : Store) (c : MemColumn) (name : String) where
  -- An open statement without a sort, of a model that has the column under the name, all of whose rows
  -- hold a number there.
  pub record IsKeyed (q : MemQuery) : Type 0 where
    pub opened : IsOpen u s q
    pub unsorted : q.orders ≡ []
    pub described : lookup name q.model.columns ≡ some c
    pub numbered : All (HasNumber c) opened.found

  count-IsKeyed : (q : MemQuery) → IsKeyed q → IsKeyed (Adapter.count q)
  unfolding Adapter.count count-IsOpen
  count-IsKeyed q k = record {
    opened = count-IsOpen u s q k.opened;
    unsorted = k.unsorted;
    described = k.described;
    numbered = k.numbered;
  }

  -- The in-memory backend keeps the laws of the strategies for these statements.
  pub keyed_laws : BackendLaws (memory_backend u s) (memory_rows u s) IsKeyed
  keyed_laws = memory_laws u s IsKeyed (λ q k. k.opened) count-IsKeyed

  kept_by : ℕ → List Record → List Record
  kept_by v found = keep (λ r. ltb v (number c r)) found

  kept_matches :
      (v : ℕ) (found : List Record)
      → All (HasNumber c) found
      → All (λ r. matches u r (above c v) ≡ ok (ltb v (number c r))) found
  kept_matches v found h =
      All-map (HasNumber c) (λ r. matches u r (above c v) ≡ ok (ltb v (number c r)))
        (matches-above u c v) found h

  abbrev greater : MemQuery → ℕ → MemQuery
  greater q v = Adapter.where_ q (above c v ∷ [])

  query_rows-greater :
      (q : MemQuery) (v : ℕ) (k : IsKeyed q)
      → query_rows u (greater q v) (table_of k.opened.name s) ≡ ok (kept_by v k.opened.found)
  unfolding Adapter.where_ kept_by
  query_rows-greater q v k =
      let o = k.opened in
      let table = table_of o.name s in
      query_rows-unsorted u (greater q v) table k.unsorted
      ∙ keep_result_of_Selected u (q.predicates ++ above c v ∷ []) (
          Selected-append u q.predicates (above c v) (λ r. ltb v (number c r))
            (keep_result-Selected u q.predicates table o.found
              (sym (query_rows-unsorted u q table k.unsorted) ∙ o.selected))
            (kept_matches v o.found k.numbered))

  greater-IsOpen : (q : MemQuery) (v : ℕ) → IsKeyed q → IsOpen u s (greater q v)
  unfolding Adapter.where_
  greater-IsOpen q v k = record {
    no_limit = k.opened.no_limit;
    no_offset = k.opened.no_offset;
    name = k.opened.name;
    tabled = k.opened.tabled;
    found = kept_by v k.opened.found;
    selected = query_rows-greater q v k;
  }

  greater-IsKeyed : (q : MemQuery) (v : ℕ) → IsKeyed q → IsKeyed (greater q v)
  unfolding Adapter.where_ greater-IsOpen kept_by
  greater-IsKeyed q v k = record {
    opened = greater-IsOpen q v k;
    unsorted = k.unsorted;
    described = k.described;
    numbered = All-keep (HasNumber c) (λ r. ltb v (number c r)) k.opened.found k.numbered;
  }

  memory_rows-greater :
      (q : MemQuery) (v : ℕ)
      → IsKeyed q
      → memory_rows u s (greater q v) ≡ keep (λ x. ltb v (key_of c x)) (memory_rows u s q)
  unfolding Adapter.where_ greater-IsOpen kept_by
  memory_rows-greater q v k =
      memory_rows_lem u s (greater q v) (greater-IsOpen q v k)
      ∙ keep-reconstruct c q.model v k.opened.found k.numbered
      ∙ ap (keep (λ x. ltb v (key_of c x))) (sym (memory_rows_lem u s q k.opened))

  memory_rows-numbers :
      (q : MemQuery)
      → IsKeyed q
      → All (λ x. attribute_of x name ≡ ok (int (pos (key_of c x)))) (memory_rows u s q)
  memory_rows-numbers q k =
      rw (memory_rows_lem u s q k.opened)
        (attribute_of-reconstruct c name q.model k.opened.found k.described k.numbered)

  pub keyed_cursors :
      (codec : Codec)
      → ((v : ℕ) → codec.loads (codec.dumps (int (pos v))) ≡ some (int (pos v)))
      → ((v : ℕ) → is_truthy (codec.dumps (int (pos v))) ≡ true)
      → CursorLaws (memory_backend u s) codec (memory_rows u s) IsKeyed (key_of c) name c
  unfolding memory_backend Column.compare
  keyed_cursors codec loads_dumps dumps_given = record {
    greater-IsOpen = greater-IsKeyed;
    rows_greater = memory_rows-greater;
    get_key = memory_rows-numbers;
    loads_dumps = loads_dumps;
    dumps_given = dumps_given;
  }
