-- ===== src/Auth/Proxy/Chain.antt =====
-- Which address of the chain counts, fastapi_admin_kit/auth/proxy.py.
use mathlib.Core.List.{reverse-append}
use fastapi_admin_kit.Base.{
  ℕ, Bool, true, false, not, ◌||◌, some, List, [], ◌∷◌, ◌++◌, map, reverse, find, any, find-append,
  keep-append, find-eq-some, find-eq-any, any-reverse, ◌≡◌, refl, ap, ◌⊎◌, inl, inr, arith,
  Option-cases, if◌then◌else◌,
}
use fastapi_admin_kit.Base.Text.{Unicode, split, strip, lstrip, split-append}
use fastapi_admin_kit.Auth.Proxy.{
  IpAddress, Request, Proxy, is_empty, is_trusted, candidates, peer_of, no_proxies, first_untrusted,
  get_trusted_proxies, get_client_ip,
}

map-append : {A B : Type 0} (f : A → B) (xs ys : List A) → map f (xs ++ ys) ≡ map f xs ++ map f ys
map-append f [] ys = refl
map-append f (x ∷ xs) ys = ap (◌∷◌ (f x)) (map-append f xs ys)

abbrev pub with_forwarded : List ℕ → Request → Request
with_forwarded forwarded r = record r { forwarded = some forwarded }

module _ (u : Unicode) (ip : IpAddress) where
  abbrev pub is_untrusted : List (Proxy u ip) → List ℕ → Bool
  is_untrusted trusted c = not (is_trusted u ip c trusted)

  candidates-append :
      (s t : List ℕ) → candidates u ip (s ++ b',' ∷ t) ≡ candidates u ip s ++ candidates u ip t
  unfolding candidates
  candidates-append s t =
      rw
        (
          split-append b',' s t,
          map-append (strip u.is_space) (split b',' s) (split b',' t),
          keep-append (λ c. not (is_empty c)) (map (strip u.is_space) (split b',' s))
              (map (strip u.is_space) (split b',' t)),
        )
        refl

  first_untrusted-append :
      (trusted : List (Proxy u ip)) (peer : List ℕ) (near far : List (List ℕ)) (c : List ℕ)
      → find (is_untrusted trusted) near ≡ some c
      → first_untrusted u ip trusted peer (near ++ far) ≡ c
  unfolding first_untrusted
  first_untrusted-append trusted peer near far c e =
      ground (arith, find-append (is_untrusted trusted) near far)

  -- The walk finds the same address whatever stands to the left of an untrusted one.
  first_untrusted-reverse :
      (trusted : List (Proxy u ip)) (peer : List ℕ) (far near : List (List ℕ))
      → any (is_untrusted trusted) near ≡ true
      → first_untrusted u ip trusted peer (reverse (far ++ near))
        ≡ first_untrusted u ip trusted peer (reverse near)
  unfolding first_untrusted
  first_untrusted-reverse trusted peer far near h =
      elim (Option-cases (find (is_untrusted trusted) (reverse near))) [
        | inl nothing ↦ ground (
          arith,
          find-eq-any (is_untrusted trusted) (reverse near),
          any-reverse (is_untrusted trusted) near,
        )
        | inr (c, e) ↦
            rw (reverse-append far near)
              (ground (arith, first_untrusted-append trusted peer (reverse near) (reverse far) c e))
      ]

  first_untrusted_lem :
      (trusted : List (Proxy u ip)) (peer : List ℕ) (chain : List (List ℕ))
      → (first_untrusted u ip trusted peer chain ≡ peer)
        ⊎ (is_trusted u ip (first_untrusted u ip trusted peer chain) trusted ≡ false)
  unfolding first_untrusted
  first_untrusted_lem trusted peer chain = elim (Option-cases (find (is_untrusted trusted) chain)) [
    | inl nothing ↦ inl (ground arith)
    | inr (c, e) ↦
        let (h, ys, zs, split) = find-eq-some (is_untrusted trusted) chain c e in inr (ground arith)
  ]

  candidates_of_empty : candidates u ip [] ≡ []
  unfolding candidates split strip lstrip
  candidates_of_empty = refl

  is_empty-append : (s t : List ℕ) (c : ℕ) → is_empty (s ++ c ∷ t) ≡ false
  is_empty-append [] t c = refl
  is_empty-append (d ∷ s) t c = refl

  get_trusted_proxies-with_forwarded :
      (f : List ℕ) (r : Request)
      → get_trusted_proxies u ip (with_forwarded f r) ≡ get_trusted_proxies u ip r
  unfolding get_trusted_proxies
  get_trusted_proxies-with_forwarded f r = refl

  peer_of-with_forwarded :
      (f : List ℕ) (r : Request) → peer_of u ip (with_forwarded f r) ≡ peer_of u ip r
  unfolding peer_of
  peer_of-with_forwarded f r = refl

  -- Whether the header is read at all depends on the peer alone.
  abbrev pub is_direct : Request → Bool
  is_direct r =
      no_proxies u ip (get_trusted_proxies u ip r)
      || not (is_trusted u ip (peer_of u ip r) (get_trusted_proxies u ip r))

  pub get_client_ip-with_forwarded :
      (f : List ℕ) (r : Request)
      → is_empty f ≡ false
      → get_client_ip u ip (with_forwarded f r) ≡ (
          if is_direct r
          then peer_of u ip r
          else first_untrusted u ip
              (get_trusted_proxies u ip r)
              (peer_of u ip r)
              (reverse (candidates u ip f)))
  unfolding get_client_ip
  get_client_ip-with_forwarded f r h =
      rw (get_trusted_proxies-with_forwarded f r, peer_of-with_forwarded f r, h) refl

  -- A header whose part behind some comma names an untrusted address is read as that part alone:
  -- what stands before the comma, which the client may have written, has no effect. The address that
  -- is found is the peer's or is itself not trusted.
  pub get_client_ip-forged :
      (r : Request) (written passed : List ℕ)
      → any (is_untrusted (get_trusted_proxies u ip r)) (candidates u ip passed) ≡ true
      → (get_client_ip u ip (with_forwarded (written ++ b',' ∷ passed) r)
          ≡ get_client_ip u ip (with_forwarded passed r))
        × ((get_client_ip u ip (with_forwarded passed r) ≡ peer_of u ip r)
            ⊎ (is_trusted u ip
                  (get_client_ip u ip (with_forwarded passed r))
                  (get_trusted_proxies u ip r)
                ≡ false))
  get_client_ip-forged r written [] h = absurd (ground (arith, candidates_of_empty))
  get_client_ip-forged r written (c ∷ passed) h =
      let T = get_trusted_proxies u ip r in
      let peer = peer_of u ip r in
      let long =
        get_client_ip-with_forwarded (written ++ b',' ∷ c ∷ passed) r
          (is_empty-append written (c ∷ passed) b',') in
      let short = get_client_ip-with_forwarded (c ∷ passed) r refl in
      let join = candidates-append written (c ∷ passed) in
      let same =
        first_untrusted-reverse T peer (candidates u ip written) (candidates u ip (c ∷ passed)) h in
      (
        ground arith,
        ground (arith, first_untrusted_lem T peer (reverse (candidates u ip (c ∷ passed)))),
      )
