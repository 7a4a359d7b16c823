-- ===== src/Auth/Totp/Backup.antt =====
-- Backup codes are used once, fastapi_admin_kit/auth/totp.py.
use fastapi_admin_kit.Base.{
  ℕ, suc, ◌+◌, ◌-◌, Bool, true, false, List, [], ◌∷◌, all, length, ltb, ◌≡◌, refl, arith,
  Bool-cases, inl, inr, if◌then◌else◌,
}
use fastapi_admin_kit.Base.Result.{Result, ok, err, ◌>>=◌}
use fastapi_admin_kit.Auth.Totp.{
  Crypto, is_ascii, is_bcrypt_hash, compare_digest, is_hash_of, verify_backup_code,
}

-- The attempts in turn, each on the list that the last one left, and how many were let in.
unfoldable pub redeem :
    (crypto : Crypto) → List (List ℕ) → List (List ℕ) → Result (ℕ × List (List ℕ))
redeem crypto [] hs = ok (0, hs)
redeem crypto (code ∷ attempts) hs = verify_backup_code crypto code hs >>= λ (found, left).
    redeem crypto attempts left >>= λ (n, last). ok (if found then suc n else n, last)

module _ (crypto : Crypto) where
  abbrev pub is_yes : Result Bool → Bool
  is_yes (ok b) = b
  is_yes (err _) = false

  -- How many of the stored hashes are the code's.
  abbrev pub count : List ℕ → List (List ℕ) → ℕ
  count code [] = 0
  count code (h ∷ hs) =
      if is_yes (is_hash_of crypto code h) then suc (count code hs) else count code hs

  -- A hash that can be compared: one of bcrypt, or an ASCII text.
  abbrev pub is_readable : List ℕ → Bool
  is_readable h = if is_bcrypt_hash h then true else is_ascii h

  -- What `hexdigest` documents: hexadecimal digits are ASCII.
  module _ (hex_ascii : (code : List ℕ) → is_ascii (crypto.sha256_hex code) ≡ true) where
    is_hash_of_total :
        (code h : List ℕ)
        → is_readable h ≡ true
        → is_hash_of crypto code h ≡ ok (is_yes (is_hash_of crypto code h))
    unfolding is_hash_of compare_digest
    is_hash_of_total code h r = elim (Bool-cases (is_bcrypt_hash h)) [
      | inl modern ↦ rw modern refl
      | inr legacy ↦
          let plain : is_ascii h ≡ true = ground (arith, r, legacy) in
          rw (legacy, hex_ascii code, plain) refl
    ]

    abbrev bit : Bool → ℕ
    bit true = 1
    bit false = 0

    -- On hashes that can be compared, a backup code is accepted exactly if some hash is its own.
    -- Then one of these is taken out of the list, and otherwise the list stays as it is: the hashes of
    -- the code become one fewer, and so does the list.
    pub verify_backup_code-count :
        (code : List ℕ) (hs : List (List ℕ))
        → all is_readable hs ≡ true
        → (found : Bool) × (left : List (List ℕ)) × (verify_backup_code crypto code hs
            ≡ ok (found, left))
          × (found ≡ ltb 0 (count code hs))
          × (count code left ≡ count code hs - 1)
          × (length left + bit found ≡ length hs)
          × (all is_readable left ≡ true)
    unfolding verify_backup_code
    verify_backup_code-count code [] r = (false, [], refl, refl, refl, refl, refl)
    verify_backup_code-count code (h ∷ hs) r =
        let here = is_hash_of_total code h (ground (arith, r)) in
        elim (Bool-cases (is_yes (is_hash_of crypto code h))) [
          | inl same ↦ (
            true,
            hs,
            rw (here, same) refl,
            ground (arith, same),
            ground (arith, same),
            omega arith,
            ground (arith, r),
          )
          | inr other ↦
              let (found, left, v, f, c, l, readable) =
                verify_backup_code-count code hs (ground (arith, r)) in
              (
                found,
                h ∷ left,
                rw (here, other, v) refl,
                ground (arith, other),
                ground (arith, other),
                omega (arith, l),
                ground (arith, readable, r),
              )
        ]

    -- Whatever codes are tried in whatever order, on hashes that can be compared: nothing is raised,
    -- and the attempts that were let in and the codes that are left make up the codes there were.
    pub redeem-length :
        (attempts hs : List (List ℕ))
        → all is_readable hs ≡ true
        → (n : ℕ) × (left : List (List ℕ)) × (redeem crypto attempts hs ≡ ok (n, left))
          × (n + length left ≡ length hs)
    unfolding redeem
    redeem-length [] hs r = (0, hs, refl, omega arith)
    redeem-length (code ∷ attempts) hs r =
        let (found, left, v, f, c, l, readable) = verify_backup_code-count code hs r in
        let (n, last, e, total) = redeem-length attempts left readable in
        (if found then suc n else n, last, rw (v, e) refl, ground (arith, total, l))
