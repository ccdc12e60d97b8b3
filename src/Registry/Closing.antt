-- ===== src/Registry/Closing.antt =====
-- Closing a connection of src/connection.rs, whatever other calls follow.
use zc.Prelude.{
  ℕ, suc, ◌^◌, ◌≡◌, ◌≢◌, refl, sym, ap, subst, ◌∙◌, true, Option, none, some, List, [], ◌∷◌, length,
  All, leb, ◌==◌, arith, Bool-cases, Option-cases, inl, inr, ok, ==_iff,
}
use zc.Prelude.Text.{Text, text_eq, text_eq_refl}
use zc.Prelude.Maps.{
  find, modify, find-put_ne, find-erase_ne, find-modify_self, find-modify_ne, All-find,
}
use zc.Registry.State.{
  Entry, State, SocketAddr, Call, closing, register_call, close_call, phase_call, inbound_call,
  target_call, routed_call, idle_call, drop_call, max_connections, new_entry, register, close,
  close_parts, close_entry, split_id, is_closing, unless_closing, update, set_phase, set_inbound,
  set_target, set_routed, set_idle, drop_guard, run_call, run_calls,
}
use zc.Registry.Ids.{IsNonce, split_id-format_id}
use zc.Registry.Live.{
  IsEntry, IsRegistry, AllEntries, IsCall, run_call-IsRegistry, close-IsRegistry,
}

-- The entry `k` is there, in phase `Closing`, and its task is told to stop.
pub record IsClosing (k : ℕ) (s : State) : Type 0 where
  pub entry : Entry
  pub here : find k s.entries ≡ some entry
  pub phase : entry.metadata.phase ≡ closing
  pub cancelled : entry.cancel ≡ true

modify-IsClosing :
    (k j : ℕ) (f : Entry → Entry) (s : State)
    → ((e : Entry)
        → e.metadata.phase ≡ closing
        → e.cancel ≡ true
        → ((f e).metadata.phase ≡ closing) × ((f e).cancel ≡ true))
    → IsClosing k s
    → IsClosing k (record s { entries = modify j f s.entries })
modify-IsClosing k j f s keeps c = elim (Bool-cases (j == k)) [
  | inl same ↦
      let keys : j ≡ k = (==_iff j k).0 same in
      record {
        entry = f c.entry;
        here =
            subst (λ i. find k (modify i f s.entries) ≡ some (f c.entry)) (sym keys)
              (find-modify_self k f s.entries c.entry c.here);
        phase = (keeps c.entry c.phase c.cancelled).0;
        cancelled = (keeps c.entry c.phase c.cancelled).1;
      }
  | inr other ↦ record {
    entry = c.entry;
    here = find-modify_ne j k f s.entries (ground arith) ∙ c.here;
    phase = c.phase;
    cancelled = c.cancelled;
  }
]

unless_closing_shut :
    (f : Entry → Entry) (e : Entry) → e.metadata.phase ≡ closing → unless_closing f e ≡ e
unfolding unless_closing
unless_closing_shut f e p =
    let shut : is_closing e.metadata.phase ≡ true = rw p refl in rw shut refl

update-IsClosing :
    (k j : ℕ) (f : Entry → Entry) (s : State) → IsClosing k s → IsClosing k (update j f s)
unfolding update
update-IsClosing k j f s c =
    modify-IsClosing k j (unless_closing f) s
      (λ e p q. (
        ap (λ x. x.metadata.phase) (unless_closing_shut f e p) ∙ p,
        ap (λ x. x.cancel) (unless_closing_shut f e p) ∙ q,
      ))
      c

close_parts-IsClosing :
    (nonce : Text) (parts : Option (Text × ℕ)) (k : ℕ) (s : State)
    → IsClosing k s
    → IsClosing k (close_parts nonce parts s).1
unfolding close_parts close_entry
close_parts-IsClosing nonce none k s c = c
close_parts-IsClosing nonce (some (n, j)) k s c = elim (Bool-cases (text_eq n nonce)) [
  | inl same ↦ elim (Option-cases (find j s.entries)) [
    | inl gone ↦ rw (same, gone) c
    | inr (e, there) ↦
        rw (same, there) (modify-IsClosing k j close_entry s (λ e' p q. (refl, refl)) c)
  ]
  | inr other ↦ rw other c
]

register-IsClosing :
    (nonce : Text) (k : ℕ) (source : SocketAddr) (s : State)
    → IsRegistry nonce s
    → IsClosing k s
    → IsClosing k (register nonce source s).1
unfolding register AllEntries
register-IsClosing nonce k source s v c =
    elim (Bool-cases (leb max_connections (length s.entries))) [
      | inl full ↦ rw full c
      | inr room ↦ elim (Bool-cases (leb (2 ^ 64) (suc s.sequence))) [
        | inl spent ↦ rw (room, spent) c
        | inr more ↦
            let old : IsEntry nonce s.sequence k c.entry =
              All-find (λ ke. IsEntry nonce s.sequence ke.0 ke.1) k s.entries c.entry
                v.entries_valid c.here in
            rw (room, more)
              (record {
                entry = c.entry;
                here =
                    find-put_ne (suc s.sequence) k (new_entry nonce (suc s.sequence) source)
                      s.entries (λ e. absurd (omega (arith, old.issued, e)))
                    ∙ c.here;
                phase = c.phase;
                cancelled = c.cancelled;
              })
      ]
    ]

-- The guard of `k` is not dropped by this call.
abbrev pub HoldsGuard : ℕ → Call → Type 0
HoldsGuard k (drop_call j) = j ≢ k
HoldsGuard k _ = Unit

run_call-IsClosing :
    (nonce : Text) (k : ℕ) (call : Call) (s : State)
    → HoldsGuard k call
    → IsRegistry nonce s
    → IsClosing k s
    → IsClosing k (run_call nonce call s)
unfolding run_call close drop_guard
run_call-IsClosing nonce k (register_call source) s h v c = register-IsClosing nonce k source s v c
run_call-IsClosing nonce k (close_call id) s h v c = close_parts-IsClosing nonce (split_id id) k s c
run_call-IsClosing nonce k (phase_call j phase) s h v c = update-IsClosing k j (set_phase phase) s c
run_call-IsClosing nonce k (inbound_call j inbound) s h v c =
    update-IsClosing k j (set_inbound inbound) s c
run_call-IsClosing nonce k (target_call j target source inbound) s h v c =
    update-IsClosing k j (set_target target source inbound) s c
run_call-IsClosing nonce k (routed_call j target rule leaf) s h v c =
    update-IsClosing k j (set_routed target rule leaf) s c
run_call-IsClosing nonce k (idle_call j) s h v c = update-IsClosing k j set_idle s c
run_call-IsClosing nonce k (drop_call j) s h v c = record {
  entry = c.entry;
  here = find-erase_ne j k s.entries h ∙ c.here;
  phase = c.phase;
  cancelled = c.cancelled;
}

run_calls-IsClosing :
    (nonce : Text) (k : ℕ) (calls : List Call) (s : State)
    → All IsCall calls
    → All (HoldsGuard k) calls
    → IsRegistry nonce s
    → IsClosing k s
    → IsClosing k (run_calls nonce calls s)
unfolding run_calls
run_calls-IsClosing nonce k [] s fine holds v c = c
run_calls-IsClosing nonce k (call ∷ calls) s (fine, fines) (hold, holds) v c =
    run_calls-IsClosing nonce k calls (run_call nonce call s) fines holds
      (run_call-IsRegistry nonce call s fine v) (run_call-IsClosing nonce k call s hold v c)

close_parts_live :
    (nonce : Text) (k : ℕ) (e : Entry) (s : State)
    → find k s.entries ≡ some e
    → close_parts nonce (some (nonce, k)) s
      ≡ (ok tt, record s { entries = modify k close_entry s.entries })
unfolding close_parts
close_parts_live nonce k e s here = rw (text_eq_refl nonce, here) refl

close_live-IsClosing :
    (k : ℕ) (e : Entry) (s : State)
    → find k s.entries ≡ some e
    → IsClosing k (record s { entries = modify k close_entry s.entries })
unfolding close_entry
close_live-IsClosing k e s here = record {
  entry = close_entry e;
  here = find-modify_self k close_entry s.entries e here;
  phase = refl;
  cancelled = refl;
}

-- `close` with the id that a live connection was given succeeds. From then on, whatever calls follow
-- while the connection's guard lives, its entry is in phase `Closing` and its cancel signal is set.
pub close-IsClosing :
    (nonce : Text) (k : ℕ) (e : Entry) (s : State) (calls : List Call)
    → IsNonce nonce
    → IsRegistry nonce s
    → find k s.entries ≡ some e
    → All IsCall calls
    → All (HoldsGuard k) calls
    → ((close nonce e.metadata.id s).0 ≡ ok tt)
      × IsClosing k (run_calls nonce calls (close nonce e.metadata.id s).1)
unfolding close AllEntries
close-IsClosing nonce k e s calls hex v here fine holds =
    let old : IsEntry nonce s.sequence k e =
      All-find (λ ke. IsEntry nonce s.sequence ke.0 ke.1) k s.entries e v.entries_valid here in
    let parts : split_id e.metadata.id ≡ some (nonce, k) =
      ap split_id old.named
      ∙ split_id-format_id nonce k hex old.positive (omega (arith, old.issued, v.counted)) in
    let result : close nonce e.metadata.id s
        ≡ (ok tt, record s { entries = modify k close_entry s.entries }) =
      ap (λ p. close_parts nonce p s) parts ∙ close_parts_live nonce k e s here in
    (
      ap (λ r. r.0) result,
      run_calls-IsClosing nonce k calls (close nonce e.metadata.id s).1 fine holds
          (close-IsRegistry nonce e.metadata.id s v)
          (subst (λ r. IsClosing k r.1) (sym result) (close_live-IsClosing k e s here)),
    )
