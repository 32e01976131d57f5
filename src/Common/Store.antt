-- ===== src/Common/Store.antt =====
-- The int that a function of the source returns, and a memory as a function of the position.
use Prim.Native.Nat.{ℕ}
use mathlib.Core.Path.{◌≡◌}
use mathlib.Core.Logic.{◌≢◌}
use mathlib.Core.Bool.{Bool, true, false}
use native.Mathlib.Omega.{arith}
use mysql_proxy.Common.Tests.{◌==◌, if◌then◌else◌}

-- `ret n` returns n, and `fail n` returns -n.
pub data Ret : Type 0 where
  ret : ℕ → Ret
  fail : ℕ → Ret

-- `r < 0`
abbrev pub failed : Ret → Bool
failed (ret n) = false
failed (fail n) = true

module _ {ℓ} {A : Type ℓ} where
  -- A write at one position.
  unfoldable pub update : (ℕ → A) → ℕ → A → ℕ → A
  update m p a q = if q == p then a else m q

  pub update_self : (m : ℕ → A) (p : ℕ) (a : A) → update m p a p ≡ a
  unfolding update
  update_self m p a = ground arith

  pub update_ne : (m : ℕ → A) (p q : ℕ) (a : A) → q ≢ p → update m p a q ≡ m q
  unfolding update
  update_ne m p q a h = ground arith
