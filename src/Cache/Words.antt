-- ===== src/Cache/Words.antt =====
-- The `usize` and `f64` arithmetic of cache.rs.
use vegafusion.Prelude.{
  ℕ, zero, suc, ◌+◌, ◌-◌, ◌*◌, ◌/◌, ◌%◌, ◌^◌, ◌<◌, ◌≡◌, true, arith, ltb, nat_beq, if◌then◌else◌,
  lt→ltb, ◌≢◌,
}

abbrev pub usize_mod : ℕ
usize_mod = 2 ^ 64

-- `AtomicUsize::fetch_add` and `fetch_sub`, which wrap around.
unfoldable pub fetch_add : ℕ → ℕ → ℕ
fetch_add a b = (a + b) % usize_mod

unfoldable pub fetch_sub : ℕ → ℕ → ℕ
fetch_sub a b = (a + (usize_mod - b % usize_mod)) % usize_mod

-- The number of low bits that do not fit the 53 bits of an `f64`; 11 halvings reach any `usize`.
excess_bits : ℕ → ℕ → ℕ
excess_bits zero n = 0
excess_bits (suc f) n = let more = suc (excess_bits f (n / 2)) in if ltb n (2 ^ 53) then 0 else more

-- `n as f64` for a `usize`: the nearest multiple of `unit`, ties to the even one.
round_to : ℕ → ℕ → ℕ
round_to unit n =
    let low = n / unit * unit in
    let rest = n % unit in
    if ltb (2 * rest) unit
    then low
    else if ltb unit (2 * rest)
    then low + unit
    else if nat_beq (n / unit % 2) 0
    then low
    else low + unit

as_f64 : ℕ → ℕ
unfolding excess_bits round_to
as_f64 n = round_to (2 ^ excess_bits 11 n) n

-- `(n as f64 * 0.5).ceil() as usize`: to halve an `f64` of this size is exact.
unfoldable pub protected_part : ℕ → ℕ
unfolding as_f64
protected_part n = (as_f64 n + 1) / 2

round_to_one : (n : ℕ) → round_to 1 n ≡ n
unfolding round_to
round_to_one n = rw (mod-one n) (omega arith)
  where
    mod-one : (n : ℕ) → n % 1 ≡ 0
    mod-one n = omega arith

excess_none : (n : ℕ) → ltb n (2 ^ 53) ≡ true → excess_bits 11 n ≡ 0
unfolding excess_bits
excess_none n h = rw h

as_f64_exact : (n : ℕ) → n < 2 ^ 53 → as_f64 n ≡ n
unfolding as_f64
as_f64_exact n h = rw (excess_none n (lt→ltb n (2 ^ 53) h)) (round_to_one n)

-- Up to 2 ^ 53 the detour through `f64` is exact: the part is half of the number, rounded up.
pub protected_part-half : (n : ℕ) → n < 2 ^ 53 → protected_part n ≡ (n + 1) / 2
unfolding protected_part
protected_part-half n h = rw (as_f64_exact n h)

-- A counter that holds a sum, as far as the word goes, holds the sum with a part less or more.
pub fetch_sub-mod :
    (a b m whole : ℕ) → a ≡ whole % usize_mod → whole ≡ b + m → fetch_sub a b ≡ m % usize_mod
unfolding fetch_sub
fetch_sub-mod a b m whole h e = omega arith

pub fetch_add-mod :
    (a b m whole : ℕ) → a ≡ m % usize_mod → whole ≡ b + m → fetch_add a b ≡ whole % usize_mod
unfolding fetch_add
fetch_add-mod a b m whole h e = omega arith

-- The same where the part that is counted and the part that is meant differ: the drift of the
-- counter changes by the difference.
pub fetch_add-drift :
    (a m n rest d d' : ℕ)
    → a ≡ (rest + d) % usize_mod
    → (m + d) % usize_mod ≡ (n + d') % usize_mod
    → fetch_add a m ≡ (n + rest + d') % usize_mod
unfolding fetch_add
fetch_add-drift a m n rest d d' h e = omega arith

pub fetch_sub-drift :
    (a m n rest d d' : ℕ)
    → a ≡ (n + rest + d) % usize_mod
    → (n + d) % usize_mod ≡ (m + d') % usize_mod
    → fetch_sub a m ≡ (rest + d') % usize_mod
unfolding fetch_sub
fetch_sub-drift a m n rest d d' h e = omega arith

-- What a counter is off by after a part of size `n` was counted as one of size `m`.
unfoldable pub drift : ℕ → ℕ → ℕ
drift m n = m + (usize_mod - n % usize_mod)

pub drift_add : (m n d : ℕ) → (m + d) % usize_mod ≡ (n + (d + drift m n)) % usize_mod
unfolding drift
drift_add m n d = omega arith

-- A counter that counts a part of size `m`, where one of size `n` is now.
pub drift_over :
    (a m n rest d : ℕ)
    → a ≡ (m + rest + d) % usize_mod
    → a ≡ (n + rest + (d + drift m n)) % usize_mod
unfolding drift
drift_over a m n rest d h = omega arith

pub drift-ne-zero : (m n : ℕ) → m % usize_mod ≢ n % usize_mod → drift m n % usize_mod ≢ 0
unfolding drift
drift-ne-zero m n h e = h (omega arith)
