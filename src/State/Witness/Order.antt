-- ===== src/State/Witness/Order.antt =====
-- What the order check of keys accepts.
use shell_chain_specs.Common.{
  ℕ, ◌+◌, ◌≡◌, refl, String, List, [], ◌∷◌, All, All-map, Below, Below-trans, is_lt, is_lt→lt,
  if◌then◌else◌, ok, if_ok,
}
use shell_chain_specs.Primitives.StateKey.{StateKey, encode_state_key, compare_state_keys}
use shell_chain_specs.State.Witness.{non_canonical_witness_ordering, increasing_loop}

-- Each key's canonical bytes are below those of all the keys after it.
abbrev pub Increasing : List StateKey → Type 0
Increasing [] = Unit
Increasing (key ∷ keys) =
    All (λ (k : StateKey). Below (encode_state_key key) (encode_state_key k)) keys × Increasing keys

pub increasing_loop-Increasing :
    (context : String) (index : ℕ) (keys : List StateKey)
    → increasing_loop context index keys ≡ ok tt
    → Increasing keys
unfolding increasing_loop compare_state_keys
increasing_loop-Increasing context index [] e = tt
increasing_loop-Increasing context index (left ∷ []) e = (tt, tt)
increasing_loop-Increasing context index (left ∷ right ∷ keys) e =
    let o = compare_state_keys left right in
    let (lt, step) =
      if_ok (is_lt o) (increasing_loop context (index + 1) (right ∷ keys))
        (non_canonical_witness_ordering (index + 1) context) e in
    let (a, rest) = increasing_loop-Increasing context (index + 1) (right ∷ keys) step in
    let below = is_lt→lt o lt in
    let l = encode_state_key left in
    let r = encode_state_key right in
    ((below, All-map _ _ keys (λ k. Below-trans l r (encode_state_key k) below) a), (a, rest))

pub Increasing-increasing_loop :
    (context : String) (index : ℕ) (keys : List StateKey)
    → Increasing keys
    → increasing_loop context index keys ≡ ok tt
unfolding increasing_loop compare_state_keys
Increasing-increasing_loop context index [] s = refl
Increasing-increasing_loop context index (left ∷ []) s = refl
Increasing-increasing_loop context index (left ∷ right ∷ keys) ((lt, a), s) =
    rw (lt, increasing_loop, if◌then◌else◌)
      (Increasing-increasing_loop context (index + 1) (right ∷ keys) s)
