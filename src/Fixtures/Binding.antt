-- ===== src/Fixtures/Binding.antt =====
-- What the roots of a scenario's witnesses and transactions say of them.
use shell_chain_specs.Common.{
  ◌^◌, ◌<◌, ◌≡◌, refl, sym, ap₂, ◌∙◌, ◌⊎◌, inl, List, [], ◌∷◌, ◌++◌, concat, Bytes, length, All,
  arith, append-inj, to_be_bytes, length-to_be_bytes, to_be_bytes-inj, IsArray, append_assoc,
}
use shell_chain_specs.Primitives.StateKey.{StateWitness, StateKeyIsValid, encode_state_key}
use shell_chain_specs.Primitives.StateKey.Order.{
  encode_state_key-injective, length-encode_state_key,
}
use shell_chain_specs.Primitives.Hash.{Sha256, Collision}
use shell_chain_specs.Primitives.Ssz.Binding.{both, digest-binds}
use shell_chain_specs.Fixtures.{
  execution_witnesses_root_tag, witness_message, witness_messages, compute_execution_witnesses_root,
}

-- What Rust's types say of a witness: no list has 2 ^ 64 entries.
pub record WitnessIsValid (w : StateWitness) : Type 0 where
  pub key : StateKeyIsValid w.key
  pub leaf_value : length w.leaf_value < 2 ^ 64
  pub proof : All (IsArray 32) w.proof
  pub nodes : length w.proof < 2 ^ 64

-- A framed string and what follows it are read off.
frame-inj :
    (a b x y : Bytes)
    → length a < 2 ^ 64
    → length b < 2 ^ 64
    → to_be_bytes 8 (length a) ++ (a ++ x) ≡ to_be_bytes 8 (length b) ++ (b ++ y)
    → (a ≡ b) × (x ≡ y)
frame-inj a b x y ha hb e =
    let (lens, rest) =
      append-inj (to_be_bytes 8 (length a)) (a ++ x) (to_be_bytes 8 (length b)) (b ++ y)
        (length-to_be_bytes 8 (length a) ∙ sym (length-to_be_bytes 8 (length b))) e in
    append-inj a x b y (to_be_bytes-inj 8 (length a) (length b) ha hb lens) rest

nodes-inj :
    (xs ys : List Bytes) (u v : Bytes)
    → length xs ≡ length ys
    → All (IsArray 32) xs
    → All (IsArray 32) ys
    → concat xs ++ u ≡ concat ys ++ v
    → (xs ≡ ys) × (u ≡ v)
nodes-inj [] [] u v len a b e = (refl, e)
nodes-inj [] (y ∷ ys) u v len a b e = absurd (omega arith)
nodes-inj (x ∷ xs) [] u v len a b e = absurd (omega arith)
nodes-inj (x ∷ xs) (y ∷ ys) u v len (ax, a) (by, b) e =
    let (first, rest) =
      append-inj x (concat xs ++ u) y (concat ys ++ v) (ax.0 ∙ sym by.0)
        (sym (append_assoc x (concat xs) u) ∙ e ∙ append_assoc y (concat ys) v) in
    let (same, tail) = nodes-inj xs ys u v (omega arith) a b rest in (ap₂ ◌∷◌ first same, tail)

message-append :
    (w : StateWitness) (x : Bytes)
    → witness_message w ++ x
      ≡ to_be_bytes 8 (length (encode_state_key w.key))
        ++ (encode_state_key w.key
            ++ (to_be_bytes 8 (length w.leaf_value)
                ++ (w.leaf_value ++ (to_be_bytes 8 (length w.proof) ++ (concat w.proof ++ x)))))
unfolding witness_message
message-append w x = simp append_assoc

message-inj :
    (a b : StateWitness) (x y : Bytes)
    → WitnessIsValid a
    → WitnessIsValid b
    → witness_message a ++ x ≡ witness_message b ++ y
    → (a ≡ b) × (x ≡ y)
message-inj a b x y va vb e =
    let short = λ (w : StateWitness) (v : WitnessIsValid w). length-encode_state_key w.key v.key in
    let (encoded, e1) =
      frame-inj (encode_state_key a.key) (encode_state_key b.key) _ _ (omega (arith, short a va))
        (omega (arith, short b vb)) (sym (message-append a x) ∙ e ∙ message-append b y) in
    let (value, e2) = frame-inj a.leaf_value b.leaf_value _ _ va.leaf_value vb.leaf_value e1 in
    let (count, e3) =
      append-inj (to_be_bytes 8 (length a.proof)) _ (to_be_bytes 8 (length b.proof)) _
        (length-to_be_bytes 8 (length a.proof) ∙ sym (length-to_be_bytes 8 (length b.proof))) e2 in
    let (proof, rest) =
      nodes-inj a.proof b.proof x y
        (to_be_bytes-inj 8 (length a.proof) (length b.proof) va.nodes vb.nodes count) va.proof
        vb.proof e3 in
    let key = encode_state_key-injective a.key b.key va.key vb.key encoded in
    (λ i. record { key = key i; leaf_value = value i; proof = proof i }, rest)

messages-inj :
    (xs ys : List StateWitness)
    → length xs ≡ length ys
    → All WitnessIsValid xs
    → All WitnessIsValid ys
    → witness_messages xs ≡ witness_messages ys
    → xs ≡ ys
unfolding witness_messages
messages-inj [] [] len a b e = refl
messages-inj [] (y ∷ ys) len a b e = absurd (omega arith)
messages-inj (x ∷ xs) [] len a b e = absurd (omega arith)
messages-inj (x ∷ xs) (y ∷ ys) len (vx, a) (vy, b) e =
    let (first, rest) = message-inj x y (witness_messages xs) (witness_messages ys) vx vy e in
    ap₂ ◌∷◌ first (messages-inj xs ys (omega arith) a b rest)

-- Two lists of fewer than 2 ^ 64 witnesses, each in the range of Rust's types, that have one execution
-- witnesses root are equal, or two messages with one SHA-256 digest can be given.
pub compute_execution_witnesses_root-binds :
    (h : Sha256) (xs ys : List StateWitness)
    → All WitnessIsValid xs
    → All WitnessIsValid ys
    → length xs < 2 ^ 64
    → length ys < 2 ^ 64
    → compute_execution_witnesses_root h xs ≡ compute_execution_witnesses_root h ys
    → (xs ≡ ys) ⊎ Collision h
unfolding compute_execution_witnesses_root
compute_execution_witnesses_root-binds h xs ys vx vy nx ny e = both h (digest-binds h _ _ e) λ m.
    let counted =
      (append-inj execution_witnesses_root_tag _ execution_witnesses_root_tag _ refl m).1 in
    let (count, messages) =
      append-inj (to_be_bytes 8 (length xs)) (witness_messages xs) (to_be_bytes 8 (length ys))
        (witness_messages ys)
        (length-to_be_bytes 8 (length xs) ∙ sym (length-to_be_bytes 8 (length ys))) counted in
    inl (messages-inj xs ys (to_be_bytes-inj 8 (length xs) (length ys) nx ny count) vx vy messages)
