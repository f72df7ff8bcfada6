-- ===== src/Vmq/Keys.antt =====
-- drivers/vmq/main.c: `vmq_getkey`, which gives each caller a key.
use pi_frame.Prelude.{
  ℕ, zero, suc, ◌+◌, ◌-◌, ◌%◌, ◌^◌, ◌<◌, ◌≡◌, ◌≢◌, ◌∙◌, Bool-cases, inl, inr, arith, ◌==◌,
  if◌then◌else◌,
}
use pi_frame.Vmq.{inc}

-- The key that is given, and what `unique_key` is after it.
unfoldable pub getkey : ℕ → ℕ × ℕ
getkey unique_key =
    (unique_key, if inc unique_key == 0 then inc (inc unique_key) else inc unique_key)

-- The key of the caller `n`, counted from 0.
pub key_at : ℕ → ℕ → ℕ
key_at unique_key zero = (getkey unique_key).0
key_at unique_key (suc n) = key_at (getkey unique_key).1 n

getkey_next : (k : ℕ) → 0 < k → k < 2 ^ 32 → (getkey k).1 ≡ (k - 1 + 1) % (2 ^ 32 - 1) + 1
unfolding getkey
getkey_next k p h = elim (Bool-cases (inc k == 0)) [
  | inl wraps ↦ rw wraps (ground (arith, wraps))
  | inr goes ↦ rw goes (ground (arith, goes))
]

pub key_at_lem : (n k : ℕ) → 0 < k → k < 2 ^ 32 → key_at k n ≡ (k - 1 + n) % (2 ^ 32 - 1) + 1
unfolding key_at getkey
key_at_lem zero k p h = omega (arith, p, h)
key_at_lem (suc n) k p h =
    let e = getkey_next k p h in
    key_at_lem n (getkey k).1 (omega (arith, e)) (omega (arith, e)) ∙ omega (arith, e, p)

-- As long as fewer than 2^32 - 1 callers lie between them, no two callers get one key; and no key is
-- zero.
pub keys-differ :
    (k m n : ℕ)
    → 0 < k
    → k < 2 ^ 32
    → m < n
    → n < m + (2 ^ 32 - 1)
    → (key_at k m ≢ key_at k n) × (0 < key_at k n)
keys-differ k m n p h lt near =
    let a = key_at_lem m k p h in
    let b = key_at_lem n k p h in (λ e. omega (arith, a, b, e, p, lt, near), omega (arith, b))
