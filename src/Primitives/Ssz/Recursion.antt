-- ===== src/Primitives/Ssz/Recursion.antt =====
-- The fuel of `merkleize_loop` is enough.
use Prim.Native.Nat.{min}
use native.Mathlib.Nat.{two-pow-succ}
use shell_chain_specs.Common.{
  ℕ, zero, suc, ◌/◌, ◌^◌, ◌<◌, ◌≡◌, refl, sym, List, length, take, drop, get_or, ltb, ◌==◌, ==_iff,
  if◌then◌else◌, arith,
}
use shell_chain_specs.Primitives.Types.{Root, zero_root}
use shell_chain_specs.Primitives.Hash.{Sha256}
use shell_chain_specs.Primitives.Ssz.{sha256_pair, zero_hash, trailing_zeros, merkleize_loop}

module _ (h : Sha256) where
  merkleize_loop-zero_limit :
      (fuel : ℕ) (chunks : List Root) (limit : ℕ)
      → limit ≡ 0
      → merkleize_loop h fuel chunks limit ≡ zero_root
  unfolding merkleize_loop
  merkleize_loop-zero_limit zero chunks limit e = refl
  merkleize_loop-zero_limit (suc fuel) chunks limit e = rw ((==_iff limit 0).1 e) refl

  -- Each call halves the limit: fuel of as many bits as the limit has is as good as any more.
  merkleize_loop-fuel :
      (f g : ℕ) (chunks : List Root) (limit : ℕ)
      → limit < 2 ^ f
      → limit < 2 ^ g
      → merkleize_loop h f chunks limit ≡ merkleize_loop h g chunks limit
  unfolding merkleize_loop
  merkleize_loop-fuel zero g chunks limit a b =
      sym (merkleize_loop-zero_limit g chunks limit (omega arith))
  merkleize_loop-fuel (suc f) zero chunks limit a b =
      merkleize_loop-zero_limit (suc f) chunks limit (omega arith)
  merkleize_loop-fuel (suc f) (suc g) chunks limit a b =
      let half = limit / 2 in
      let a' : half < 2 ^ f = omega (arith, two-pow-succ f) in
      let b' : half < 2 ^ g = omega (arith, two-pow-succ g) in
      let left = merkleize_loop-fuel f g (take (min (length chunks) half) chunks) half a' b' in
      let upper = merkleize_loop-fuel f g (drop half chunks) half a' b' in
      λ i.
        if limit == 0
        then zero_root
        else if limit == 1
        then get_or chunks 0 zero_root
        else sha256_pair h (left i)
            (if ltb half (length chunks) then upper i else zero_hash h (trailing_zeros half))
