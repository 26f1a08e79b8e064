-- ===== src/Metadata/Serialize/Bytes.antt =====
-- The round trip of common/cpp/public_metadata/serialize.cc, and the order of its keys.
use vpn_libraries.Prelude.{
  ℕ, zero, suc, ◌+◌, ◌*◌, ◌/◌, ◌%◌, ◌^◌, ◌<◌, ◌≡◌, refl, sym, ◌∙◌, Bool, true, false, [], ◌∷◌, ◌++◌,
  arith, ltb, ◌==◌, ◌&&◌, ◌||◌, length, length-append, subst, Bool-cases, inl, inr,
}
use vpn_libraries.Prelude.Text.{Text}
use vpn_libraries.Metadata.Serialize.{big_endian, uint64_to_bytes, read_big_endian, bytes_to_uint64}

read_append :
    (acc : ℕ) (bs : Text) (b : ℕ)
    → read_big_endian acc (bs ++ b ∷ []) ≡ read_big_endian acc bs * 256 + b
unfolding read_big_endian
read_append acc [] b = refl
read_append acc (c ∷ bs) b = read_append (acc * 256 + c) bs b

quotient_lt : (n x : ℕ) → x < 256 ^ suc n → x / 256 < 256 ^ n
quotient_lt n x h = let p : 256 ^ suc n ≡ 256 ^ n * 256 = omega arith in omega (arith, p)

read_big_endian_lem : (n x : ℕ) → x < 256 ^ n → read_big_endian 0 (big_endian n x) ≡ x
unfolding big_endian read_big_endian
read_big_endian_lem zero x h = let e : 256 ^ 0 ≡ 1 = refl in omega (arith, e)
read_big_endian_lem (suc n) x h =
    let ih = read_big_endian_lem n (x / 256) (quotient_lt n x h) in
    let r = read_append 0 (big_endian n (x / 256)) (x % 256) in omega (arith, r, ih)

-- A uint64 that was written as 8 bytes is read back.
pub uint64_round_trip : (fp : ℕ) → fp < 2 ^ 64 → bytes_to_uint64 (uint64_to_bytes fp) ≡ fp
unfolding uint64_to_bytes bytes_to_uint64
uint64_round_trip fp h = read_big_endian_lem 8 fp h

-- The order of std::string, byte by byte.
unfoldable pub lt_bytes : Text → Text → Bool
lt_bytes s [] = false
lt_bytes [] (b ∷ t) = true
lt_bytes (a ∷ s) (b ∷ t) = ltb a b || a == b && lt_bytes s t

length-big_endian : (n x : ℕ) → length (big_endian n x) ≡ n
unfolding big_endian
length-big_endian zero x = refl
length-big_endian (suc n) x =
    omega
      (arith, length-append (big_endian n (x / 256)) (x % 256 ∷ []), length-big_endian n (x / 256))

-- A difference in the first bytes decides.
lt_bytes_append :
    (s t : Text) (a b : ℕ)
    → length s ≡ length t
    → lt_bytes s t ≡ true
    → lt_bytes (s ++ a ∷ []) (t ++ b ∷ []) ≡ true
unfolding lt_bytes
lt_bytes_append [] [] a b l h = ground arith
lt_bytes_append [] (d ∷ t) a b l h = absurd (omega arith)
lt_bytes_append (c ∷ s) [] a b l h = absurd (omega arith)
lt_bytes_append (c ∷ s) (d ∷ t) a b l h =
    let l' : length s ≡ length t = omega arith in ground (arith, lt_bytes_append s t a b l')

lt_bytes_last : (s : Text) (a b : ℕ) → a < b → lt_bytes (s ++ a ∷ []) (s ++ b ∷ []) ≡ true
unfolding lt_bytes
lt_bytes_last [] a b h = ground arith
lt_bytes_last (c ∷ s) a b h = ground (arith, lt_bytes_last s a b h)

big_endian_lt :
    (n x y : ℕ) → x < y → y < 256 ^ n → lt_bytes (big_endian n x) (big_endian n y) ≡ true
unfolding big_endian
big_endian_lt zero x y h b = let e : 256 ^ 0 ≡ 1 = refl in absurd (omega (arith, e))
big_endian_lt (suc n) x y h b =
    let q = big_endian n (x / 256) in
    let q' = big_endian n (y / 256) in
    let l = length-big_endian n (x / 256) ∙ sym (length-big_endian n (y / 256)) in
    elim (Bool-cases (ltb (x / 256) (y / 256))) [
      | inl lt ↦
          lt_bytes_append q q' (x % 256) (y % 256) l
            (big_endian_lt n (x / 256) (y / 256) (ground arith) (quotient_lt n y b))
      | inr ge ↦
          let e : x / 256 ≡ y / 256 = ground arith in
          let r : x % 256 < y % 256 = omega arith in
          subst
            (λ z.
              lt_bytes (big_endian n (x / 256) ++ x % 256 ∷ []) (big_endian n z ++ y % 256 ∷ [])
              ≡ true)
            e (lt_bytes_last q (x % 256) (y % 256) r)
    ]

-- The bytes of two uint64 compare as the numbers do.
pub uint64_to_bytes-lt :
    (x y : ℕ) → x < y → y < 2 ^ 64 → lt_bytes (uint64_to_bytes x) (uint64_to_bytes y) ≡ true
unfolding uint64_to_bytes
uint64_to_bytes-lt x y h b = big_endian_lt 8 x y h b
