-- ===== src/Mempool/Screening.antt =====
-- What the screening of a transaction accepts.
use shell_chain_specs.Common.{
  ℕ, ◌≤◌, ◌<◌, ◌≡◌, ◌↔◌, refl, sym, ap, ◌∙◌, inl, inr, Option, none, some, List, [], ◌∷◌, Bytes,
  IsArray, length, All, arith, bytes_eq, bytes_eq→eq, eq→bytes_eq, from_le_bytes, if◌then◌else◌,
  if_ok, ok, err, ok-injective, >>=-eq-ok, map_err, map_err-eq-ok, Option-cases,
}
use shell_chain_specs.Primitives.Types.{
  Root, Authorization, TransactionPayload, TransactionEnvelope, basic, create, protocol_tag,
  ensure_supported_tag, EnvelopeIsValid, FeesIsValid, PayloadIsValid,
}
use shell_chain_specs.Primitives.Errors.{unsupported_payload_variant}
use shell_chain_specs.Primitives.Hash.{Sha256}
use shell_chain_specs.Primitives.Ssz.{payload_root}
use shell_chain_specs.Primitives.Validation.{
  max_user_signature_bytes, check_authorization_count, check_user_signature_size, check_roots_loop,
  check_authorization_payload_roots,
}
use shell_chain_specs.Mempool.{
  AdmissionPolicy, AdmissionStateView, FeeSchedule, TentativeAccepted, ValidationError, primitive,
  fee_floor, nonce_policy, transaction_fees, payload_lane_fee, witness_lane_fee, gas_price_covers,
  check_fee_policy, saturating_add, check_nonce, observe, check_nonce_policy, transaction_nonce,
  check_signature_sizes, screen_transaction,
}
use shell_chain_specs.Mempool
use shell_chain_specs.Mempool.Fees.{gas_price_covers_iff}

count_iff :
    (authorizations : List Authorization)
    → (check_authorization_count authorizations ≡ ok tt) ↔ (0 < length authorizations)
unfolding check_authorization_count
count_iff [] = ((λ e. cc), (λ p. absurd (omega arith)))
count_iff (a ∷ authorizations) = ((λ _. omega arith), (λ _. refl))

roots_iff :
    (root : Root) (authorizations : List Authorization)
    → (check_roots_loop root authorizations ≡ ok tt)
      ↔ All (λ (a : Authorization). a.payload_root ≡ root) authorizations
unfolding check_roots_loop
roots_iff root [] = ((λ _. tt), (λ _. refl))
roots_iff root (a ∷ authorizations) =
    let ih = roots_iff root authorizations in
    (
      (λ e.
          let (same, rest) =
            if_ok (bytes_eq a.payload_root root) (check_roots_loop root authorizations) _ e in
          (bytes_eq→eq a.payload_root root same, ih.0 rest)),
      (λ (same, rest). rw (eq→bytes_eq a.payload_root root same) (ih.1 rest)),
    )

size_iff :
    (signature : Bytes)
    → (check_user_signature_size signature ≡ ok tt) ↔ (length signature ≤ max_user_signature_bytes)
unfolding check_user_signature_size
size_iff signature = ground arith

sizes_iff :
    (authorizations : List Authorization)
    → (check_signature_sizes authorizations ≡ ok tt)
      ↔ All (λ (a : Authorization). length a.signature ≤ max_user_signature_bytes) authorizations
unfolding check_signature_sizes
sizes_iff [] = ((λ _. tt), (λ _. refl))
sizes_iff (a ∷ authorizations) =
    let ih = sizes_iff authorizations in
    (
      (λ e.
          let (_, first, rest) = >>=-eq-ok (check_user_signature_size a.signature) _ e in
          ((size_iff a.signature).0 first, ih.0 rest)),
      (λ (first, rest). rw ((size_iff a.signature).1 first) (ih.1 rest)),
    )

fees-IsValid : (e : TransactionEnvelope) → EnvelopeIsValid e → FeesIsValid (transaction_fees e)
unfolding transaction_fees
fees-IsValid e v = fees-of e.payload v.payload
  where
    fees-of :
        (p : TransactionPayload)
        → PayloadIsValid p
        → FeesIsValid (elim p [ basic p ↦ p.fees | create p ↦ p.fees ])
    fees-of (basic p) v = v.fees
    fees-of (create p) v = v.fees

-- The number that a fee encodes is at least the one required.
abbrev pub Covers : Bytes → Bytes → Type 0
Covers actual required = from_le_bytes required ≤ from_le_bytes actual

fee_iff :
    (policy : AdmissionPolicy) (e : TransactionEnvelope)
    → IsArray 32 policy.fee_schedule.payload_lane_base_fee
    → IsArray 32 policy.fee_schedule.witness_lane_base_fee
    → EnvelopeIsValid e
    → (check_fee_policy policy e ≡ ok tt) ↔ (
        Covers (payload_lane_fee e) policy.fee_schedule.payload_lane_base_fee
        × Covers (witness_lane_fee e) policy.fee_schedule.witness_lane_base_fee)
unfolding check_fee_policy payload_lane_fee witness_lane_fee
fee_iff policy e vp vw v =
    let fees = fees-IsValid e v in
    let p =
      gas_price_covers_iff (payload_lane_fee e) policy.fee_schedule.payload_lane_base_fee
        fees.regular vp in
    let w =
      gas_price_covers_iff (witness_lane_fee e) policy.fee_schedule.witness_lane_base_fee
        fees.witness vw in
    (
      (λ r.
          let (_, first, second) =
            >>=-eq-ok
              (if gas_price_covers (payload_lane_fee e) policy.fee_schedule.payload_lane_base_fee
                then ok tt
                else err (
                    fee_floor Mempool.payload policy.fee_schedule.payload_lane_base_fee
                      (payload_lane_fee e)))
              _ r in
          (p.0 (if_ok _ _ _ first).0, w.0 (if_ok _ _ _ second).0)),
      (λ (a, b). rw (p.1 a, w.1 b) refl),
    )

-- No nonce was observed, or the transaction's is at least that one and at most the gap above it.
abbrev pub NonceAllowed : ℕ → Option ℕ → ℕ → Type 0
NonceAllowed gap none nonce = Unit
NonceAllowed gap (some observed) nonce = (observed ≤ nonce) × (nonce ≤ saturating_add observed gap)

check_nonce_iff :
    (gap observed nonce : ℕ)
    → (check_nonce gap observed nonce ≡ ok tt)
      ↔ ((observed ≤ nonce) × (nonce ≤ saturating_add observed gap))
unfolding check_nonce
check_nonce_iff gap observed nonce = ground arith

nonce_iff :
    (policy : AdmissionPolicy) (e : TransactionEnvelope) (view : Option AdmissionStateView)
    → (check_nonce_policy policy e view ≡ ok tt)
      ↔ NonceAllowed policy.max_future_nonce_gap (observe view e) (transaction_nonce e)
unfolding check_nonce_policy
nonce_iff policy e view = elim (Option-cases (observe view e)) [
  | inl o ↦ rw (o, check_nonce_policy) ((λ _. tt), (λ _. refl))
  | inr (n, o) ↦
      rw (o, check_nonce_policy)
        (check_nonce_iff policy.max_future_nonce_gap n (transaction_nonce e))
]

-- What a transaction must satisfy to be accepted tentatively.
pub record Admissible (h : Sha256) (policy : AdmissionPolicy) (e : TransactionEnvelope)
    (view : Option AdmissionStateView) (root : Root) : Type 0 where
  pub rooted : payload_root h e.payload ≡ ok root
  pub present : 0 < length e.authorizations
  pub bound : All (λ (a : Authorization). a.payload_root ≡ root) e.authorizations
  pub sized :
      All (λ (a : Authorization). length a.signature ≤ max_user_signature_bytes) e.authorizations
  pub payload_fee : Covers (payload_lane_fee e) policy.fee_schedule.payload_lane_base_fee
  pub witness_fee : Covers (witness_lane_fee e) policy.fee_schedule.witness_lane_base_fee
  pub nonce : NonceAllowed policy.max_future_nonce_gap (observe view e) (transaction_nonce e)

tag-supported : (p : TransactionPayload) → ensure_supported_tag (protocol_tag p) ≡ ok tt
unfolding ensure_supported_tag protocol_tag
tag-supported (basic p) = refl
tag-supported (create p) = refl

payload_roots_iff :
    (h : Sha256) (e : TransactionEnvelope) (root : Root)
    → payload_root h e.payload ≡ ok root
    → (check_authorization_payload_roots h e.payload e.authorizations ≡ ok tt)
      ↔ All (λ (a : Authorization). a.payload_root ≡ root) e.authorizations
unfolding check_authorization_payload_roots
payload_roots_iff h e root p = rw p (roots_iff root e.authorizations)

-- For an envelope in the range of Rust's types and base fees that are 32 bytes, the screening accepts
-- with a result exactly when the payload's root is the result's, there is an authorization, each
-- authorization names that root and has a signature of at most 8192 bytes, the fees of both lanes are
-- as numbers at least the base fees, and the nonce, if one was observed, is from the one observed to
-- that one plus the gap, saturated at 2 ^ 64 - 1; and the result counts the authorizations.
pub screen_transaction_iff :
    (h : Sha256) (policy : AdmissionPolicy) (e : TransactionEnvelope)
    (view : Option AdmissionStateView) (accepted : TentativeAccepted)
    → IsArray 32 policy.fee_schedule.payload_lane_base_fee
    → IsArray 32 policy.fee_schedule.witness_lane_base_fee
    → EnvelopeIsValid e
    → (screen_transaction h policy e view ≡ ok accepted) ↔ (
        Admissible h policy e view accepted.payload_root
        × (accepted.authorization_count ≡ length e.authorizations))
unfolding screen_transaction
screen_transaction_iff h policy e view accepted vp vw v =
    let fees = fee_iff policy e vp vw v in
    let nonces = nonce_iff policy e view in
    (
      (λ r.
          let (root, r0, e1) = >>=-eq-ok (map_err primitive (payload_root h e.payload)) _ r in
          let (_, _, e2) =
            >>=-eq-ok
              (map_err (λ (tag : ℕ). primitive (unsupported_payload_variant tag))
                (ensure_supported_tag (protocol_tag e.payload)))
              _ e1 in
          let (_, r2, e3) =
            >>=-eq-ok (map_err primitive (check_authorization_count e.authorizations)) _ e2 in
          let (_, r3, e4) =
            >>=-eq-ok
              (map_err primitive (check_authorization_payload_roots h e.payload e.authorizations)) _
              e3 in
          let (_, r4, e5) =
            >>=-eq-ok (map_err primitive (check_signature_sizes e.authorizations)) _ e4 in
          let (_, r5, e6) = >>=-eq-ok (check_fee_policy policy e) _ e5 in
          let (_, r6, e7) = >>=-eq-ok (check_nonce_policy policy e view) _ e6 in
          let p = map_err-eq-ok primitive (payload_root h e.payload) r0 in
          let made = ok-injective e7 in
          let named : root ≡ accepted.payload_root =
            ap (λ (a : TentativeAccepted). a.payload_root) made in
          let p' = p ∙ ap ok named in
          let roots =
            map_err-eq-ok primitive (check_authorization_payload_roots h e.payload e.authorizations)
              r3 in
          (
            record {
              rooted = p';
              present =
                  (count_iff e.authorizations).0
                    (map_err-eq-ok primitive (check_authorization_count e.authorizations) r2);
              bound = (payload_roots_iff h e accepted.payload_root p').0 roots;
              sized =
                  (sizes_iff e.authorizations).0
                    (map_err-eq-ok primitive (check_signature_sizes e.authorizations) r4);
              payload_fee = (fees.0 r5).0;
              witness_fee = (fees.0 r5).1;
              nonce = nonces.0 r6;
            },
            sym (ap (λ (a : TentativeAccepted). a.authorization_count) made),
          )),
      (λ (a, counted).
          rw
            (
              a.rooted,
              tag-supported e.payload,
              (count_iff e.authorizations).1 a.present,
              (payload_roots_iff h e accepted.payload_root a.rooted).1 a.bound,
              (sizes_iff e.authorizations).1 a.sized,
              fees.1 (a.payload_fee, a.witness_fee),
              nonces.1 a.nonce,
            )
            (λ i. ok (record {
              payload_root = accepted.payload_root;
              authorization_count = sym counted i;
            }))),
    )
