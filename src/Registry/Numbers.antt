-- ===== src/Registry/Numbers.antt =====
-- The numbers that `register` of src/connection.rs gives out.
use zc.Prelude.{
  ℕ, suc, ◌<◌, ◌≤◌, ◌≡◌, refl, Option, none, some, List, [], ◌∷◌, arith, Bool-cases, Option-cases,
  inl, inr,
}
use zc.Prelude.Text.{Text, text_eq}
use zc.Prelude.Maps.{find}
use zc.Registry.State.{
  State, SocketAddr, Call, register_call, close_call, phase_call, inbound_call, target_call,
  routed_call, idle_call, drop_call, register, close, close_parts, split_id, update, drop_guard,
  run_call, run_calls,
}

close_parts-sequence :
    (nonce : Text) (parts : Option (Text × ℕ)) (s : State)
    → (close_parts nonce parts s).1.sequence ≡ s.sequence
unfolding close_parts
close_parts-sequence nonce none s = refl
close_parts-sequence nonce (some (n, k)) s = elim (Bool-cases (text_eq n nonce)) [
  | inl same ↦ elim (Option-cases (find k s.entries)) [
    | inl gone ↦ rw (same, gone) refl
    | inr (e, there) ↦ rw (same, there) refl
  ]
  | inr other ↦ rw other refl
]

-- What `register` answers, with the sequence number that it leaves.
register-sequence :
    (nonce : Text) (source : SocketAddr) (s : State)
    → s.sequence ≤ (register nonce source s).1.sequence
unfolding register
register-sequence nonce source s = ground arith

run_call-sequence :
    (nonce : Text) (call : Call) (s : State) → s.sequence ≤ (run_call nonce call s).sequence
unfolding run_call update drop_guard close
run_call-sequence nonce (register_call source) s = register-sequence nonce source s
run_call-sequence nonce (close_call id) s =
    omega (arith, close_parts-sequence nonce (split_id id) s)
run_call-sequence nonce (phase_call k phase) s = omega arith
run_call-sequence nonce (inbound_call k inbound) s = omega arith
run_call-sequence nonce (target_call k target source inbound) s = omega arith
run_call-sequence nonce (routed_call k target rule leaf) s = omega arith
run_call-sequence nonce (idle_call k) s = omega arith
run_call-sequence nonce (drop_call k) s = omega arith

run_calls-sequence :
    (nonce : Text) (calls : List Call) (s : State) → s.sequence ≤ (run_calls nonce calls s).sequence
unfolding run_calls
run_calls-sequence nonce [] s = omega arith
run_calls-sequence nonce (call ∷ calls) s =
    omega (
      arith,
      run_call-sequence nonce call s,
      run_calls-sequence nonce calls (run_call nonce call s),
    )

register-some :
    (nonce : Text) (source : SocketAddr) (s : State) (k : ℕ)
    → (register nonce source s).0 ≡ some k
    → (k ≡ suc s.sequence) × ((register nonce source s).1.sequence ≡ suc s.sequence)
unfolding register
register-some nonce source s k h = ground arith

-- Two connections never have the same number: whatever calls come between two that register, the
-- later one's is larger, also after the earlier one is gone.
pub register-lt :
    (nonce : Text) (source source' : SocketAddr) (calls : List Call) (s : State) (k j : ℕ)
    → (register nonce source s).0 ≡ some k
    → (register nonce source' (run_calls nonce calls (register nonce source s).1)).0 ≡ some j
    → k < j
register-lt nonce source source' calls s k j first second =
    let one = register-some nonce source s k first in
    let two =
      register-some nonce source' (run_calls nonce calls (register nonce source s).1) j second in
    let grows = run_calls-sequence nonce calls (register nonce source s).1 in
    omega (arith, one, two, grows)
