-- ===== src/Registry/Live.antt =====
-- What holds of the registry of src/connection.rs after any calls.
use zc.Prelude.{
  ℕ, suc, ◌^◌, ◌<◌, ◌≤◌, ◌≡◌, refl, false, Option, none, some, List, [], ◌∷◌, length, All, leb,
  is_some, arith, Bool-cases, Option-cases, inl, inr,
}
use zc.Prelude.Text.{Text, text_eq}
use zc.Prelude.Maps.{
  Map, find, put, modify, length-put, length-erase, length-modify, All-put, All-erase, All-modify,
}
use zc.Target.{Target}
use zc.Registry.State.{
  Entry, State, Call, Phase, Inbound, SocketAddr, socks5_udp, http_connect, http_forward,
  socks5_connect, register_call, close_call, phase_call, inbound_call, target_call, routed_call,
  idle_call, drop_call, max_connections, format_id, new_entry, register, close, close_parts,
  close_entry, split_id, is_closing, unless_closing, update, set_phase, set_inbound, set_target,
  set_routed, set_idle, scope_of, drop_guard, run_call, run_calls,
}

-- An entry under the key `k` when `top` numbers were given out: it keeps its id, its cancel signal
-- is set just when it is closing, and a routed target comes with a route.
pub record IsEntry (nonce : Text) (top k : ℕ) (e : Entry) : Type 0 where
  pub positive : 0 < k
  pub issued : k ≤ top
  pub named : e.metadata.id ≡ format_id nonce k
  pub cancelled : e.cancel ≡ is_closing e.metadata.phase
  pub routed : is_some e.route ≡ is_some e.metadata.routed_target
  pub scoped : e.metadata.target_scope ≡ scope_of e.metadata.datagram_source

unfoldable pub AllEntries : Text → ℕ → Map Entry → Type 0
AllEntries nonce top m = All (λ ke. IsEntry nonce top ke.0 ke.1) m

pub record IsRegistry (nonce : Text) (s : State) : Type 0 where
  pub bounded : length s.entries ≤ max_connections
  pub counted : s.sequence < 2 ^ 64
  pub entries_valid : AllEntries nonce s.sequence s.entries

module _ (nonce : Text) where
  -- A change of an entry that keeps it valid under its key.
  Keeps : (Entry → Entry) → Type 0
  Keeps f = (top k : ℕ) (e : Entry) → IsEntry nonce top k e → IsEntry nonce top k (f e)

  modify-IsRegistry :
      (k : ℕ) (f : Entry → Entry) (s : State)
      → Keeps f
      → IsRegistry nonce s
      → IsRegistry nonce (record s { entries = modify k f s.entries })
  unfolding Keeps AllEntries
  modify-IsRegistry k f s keeps v = record {
    bounded = omega (arith, length-modify k f s.entries, v.bounded);
    counted = v.counted;
    entries_valid =
        All-modify (λ ke. IsEntry nonce s.sequence ke.0 ke.1) k f s.entries
          (λ j a h. keeps s.sequence j a h) v.entries_valid;
  }

  close_entry-Keeps : Keeps close_entry
  unfolding Keeps close_entry
  close_entry-Keeps top k e v = record {
    positive = v.positive;
    issued = v.issued;
    named = v.named;
    cancelled = refl;
    routed = v.routed;
    scoped = v.scoped;
  }

  -- A change is made only while the entry is not closing, so that it must not set the phase to
  -- `Closing` on its own.
  IsOpenChange : (Entry → Entry) → Type 0
  IsOpenChange f =
      (top k : ℕ) (e : Entry) → IsEntry nonce top k e → e.cancel ≡ false → IsEntry nonce top k (f e)

  unless_closing-Keeps : (f : Entry → Entry) → IsOpenChange f → Keeps (unless_closing f)
  unfolding Keeps IsOpenChange unless_closing
  unless_closing-Keeps f opens top k e v = elim (Bool-cases (is_closing e.metadata.phase)) [
    | inl shut ↦ rw shut v
    | inr live ↦ rw live (let plain : e.cancel ≡ false = cc v.cancelled in opens top k e v plain)
  ]

  update-IsRegistry :
      (k : ℕ) (f : Entry → Entry) (s : State)
      → IsOpenChange f
      → IsRegistry nonce s
      → IsRegistry nonce (update k f s)
  unfolding update
  update-IsRegistry k f s opens v =
      modify-IsRegistry k (unless_closing f) s (unless_closing-Keeps f opens) v

  new_entry-IsEntry :
      (source : SocketAddr) (n : ℕ) → IsEntry nonce (suc n) (suc n) (new_entry nonce (suc n) source)
  unfolding new_entry scope_of
  new_entry-IsEntry source n = record {
    positive = omega arith;
    issued = omega arith;
    named = refl;
    cancelled = refl;
    routed = refl;
    scoped = refl;
  }

  later-IsEntry : (n k : ℕ) (e : Entry) → IsEntry nonce n k e → IsEntry nonce (suc n) k e
  later-IsEntry n k e v = record {
    positive = v.positive;
    issued = omega (arith, v.issued);
    named = v.named;
    cancelled = v.cancelled;
    routed = v.routed;
    scoped = v.scoped;
  }

  later-AllEntries : (n : ℕ) (m : Map Entry) → AllEntries nonce n m → AllEntries nonce (suc n) m
  unfolding AllEntries
  later-AllEntries n [] h = tt
  later-AllEntries n (ke ∷ m) (h, hs) = (later-IsEntry n ke.0 ke.1 h, later-AllEntries n m hs)

  register-IsRegistry :
      (source : SocketAddr) (s : State)
      → IsRegistry nonce s
      → IsRegistry nonce (register nonce source s).1
  unfolding register AllEntries
  register-IsRegistry source s v = elim (Bool-cases (leb max_connections (length s.entries))) [
    | inl full ↦ rw full v
    | inr room ↦ elim (Bool-cases (leb (2 ^ 64) (suc s.sequence))) [
      | inl spent ↦ rw (room, spent) v
      | inr more ↦
          rw (room, more)
            (record {
              bounded =
                  let grows : length
                        (put (suc s.sequence) (new_entry nonce (suc s.sequence) source) s.entries)
                      ≤ suc (length s.entries) =
                    length-put _ _ s.entries in
                  ground arith;
              counted = ground arith;
              entries_valid =
                  All-put (λ ke. IsEntry nonce (suc s.sequence) ke.0 ke.1) (suc s.sequence)
                    (new_entry nonce (suc s.sequence) source) s.entries
                    (new_entry-IsEntry source s.sequence)
                    (later-AllEntries s.sequence s.entries v.entries_valid);
            })
    ]
  ]

  close_parts-IsRegistry :
      (parts : Option (Text × ℕ)) (s : State)
      → IsRegistry nonce s
      → IsRegistry nonce (close_parts nonce parts s).1
  unfolding close_parts
  close_parts-IsRegistry none s v = v
  close_parts-IsRegistry (some (n, k)) s v = elim (Bool-cases (text_eq n nonce)) [
    | inl same ↦ elim (Option-cases (find k s.entries)) [
      | inl gone ↦ rw (same, gone) v
      | inr (e, there) ↦ rw (same, there) (modify-IsRegistry k close_entry s close_entry-Keeps v)
    ]
    | inr other ↦ rw other v
  ]

  pub close-IsRegistry :
      (id : Text) (s : State) → IsRegistry nonce s → IsRegistry nonce (close nonce id s).1
  unfolding close
  close-IsRegistry id s v = close_parts-IsRegistry (split_id id) s v

  drop_guard-IsRegistry :
      (k : ℕ) (s : State) → IsRegistry nonce s → IsRegistry nonce (drop_guard k s)
  unfolding drop_guard AllEntries
  drop_guard-IsRegistry k s v = record {
    bounded = omega (arith, length-erase k s.entries, v.bounded);
    counted = v.counted;
    entries_valid =
        All-erase (λ ke. IsEntry nonce s.sequence ke.0 ke.1) k s.entries v.entries_valid;
  }

  set_phase-IsOpenChange :
      (phase : Phase) → is_closing phase ≡ false → IsOpenChange (set_phase phase)
  unfolding IsOpenChange set_phase
  set_phase-IsOpenChange phase plain top k e v live = record {
    positive = v.positive;
    issued = v.issued;
    named = v.named;
    cancelled = cc;
    routed = v.routed;
    scoped = v.scoped;
  }

  set_inbound-IsOpenChange : (inbound : Inbound) → IsOpenChange (set_inbound inbound)
  unfolding IsOpenChange set_inbound
  set_inbound-IsOpenChange socks5_udp top k e v live = record {
    positive = v.positive;
    issued = v.issued;
    named = v.named;
    cancelled = live;
    routed = v.routed;
    scoped = v.scoped;
  }
  set_inbound-IsOpenChange http_connect top k e v live = record {
    positive = v.positive;
    issued = v.issued;
    named = v.named;
    cancelled = v.cancelled;
    routed = v.routed;
    scoped = v.scoped;
  }
  set_inbound-IsOpenChange http_forward top k e v live = record {
    positive = v.positive;
    issued = v.issued;
    named = v.named;
    cancelled = v.cancelled;
    routed = v.routed;
    scoped = v.scoped;
  }
  set_inbound-IsOpenChange socks5_connect top k e v live = record {
    positive = v.positive;
    issued = v.issued;
    named = v.named;
    cancelled = v.cancelled;
    routed = v.routed;
    scoped = v.scoped;
  }

  set_target-IsOpenChange :
      (target : Target) (source : Option SocketAddr) (inbound : Inbound)
      → IsOpenChange (set_target target source inbound)
  unfolding IsOpenChange set_target
  set_target-IsOpenChange target source inbound top k e v live = record {
    positive = v.positive;
    issued = v.issued;
    named = v.named;
    cancelled = live;
    routed = refl;
    scoped = refl;
  }

  set_routed-IsOpenChange :
      (target : Target) (rule leaf : ℕ) → IsOpenChange (set_routed target rule leaf)
  unfolding IsOpenChange set_routed
  set_routed-IsOpenChange target rule leaf top k e v live = record {
    positive = v.positive;
    issued = v.issued;
    named = v.named;
    cancelled = live;
    routed = refl;
    scoped = v.scoped;
  }

  set_idle-IsOpenChange : IsOpenChange set_idle
  unfolding IsOpenChange set_idle
  set_idle-IsOpenChange top k e v live = record {
    positive = v.positive;
    issued = v.issued;
    named = v.named;
    cancelled = live;
    routed = refl;
    scoped = v.scoped;
  }

-- No caller sets the phase to `Closing` through a guard.
abbrev pub IsCall : Call → Type 0
IsCall (phase_call k phase) = is_closing phase ≡ false
IsCall _ = Unit

pub run_call-IsRegistry :
    (nonce : Text) (call : Call) (s : State)
    → IsCall call
    → IsRegistry nonce s
    → IsRegistry nonce (run_call nonce call s)
unfolding run_call
run_call-IsRegistry nonce (register_call source) s fine v = register-IsRegistry nonce source s v
run_call-IsRegistry nonce (close_call id) s fine v = close-IsRegistry nonce id s v
run_call-IsRegistry nonce (phase_call k phase) s fine v =
    update-IsRegistry nonce k (set_phase phase) s (set_phase-IsOpenChange nonce phase fine) v
run_call-IsRegistry nonce (inbound_call k inbound) s fine v =
    update-IsRegistry nonce k (set_inbound inbound) s (set_inbound-IsOpenChange nonce inbound) v
run_call-IsRegistry nonce (target_call k target source inbound) s fine v =
    update-IsRegistry nonce k (set_target target source inbound) s
      (set_target-IsOpenChange nonce target source inbound) v
run_call-IsRegistry nonce (routed_call k target rule leaf) s fine v =
    update-IsRegistry nonce k (set_routed target rule leaf) s
      (set_routed-IsOpenChange nonce target rule leaf) v
run_call-IsRegistry nonce (idle_call k) s fine v =
    update-IsRegistry nonce k set_idle s (set_idle-IsOpenChange nonce) v
run_call-IsRegistry nonce (drop_call k) s fine v = drop_guard-IsRegistry nonce k s v

-- After any calls the registry holds at most 1024 entries, each under the number and the id that
-- `register` gave it, with its cancel signal set just when it is closing.
pub run_calls-IsRegistry :
    (nonce : Text) (calls : List Call) (s : State)
    → All IsCall calls
    → IsRegistry nonce s
    → IsRegistry nonce (run_calls nonce calls s)
unfolding run_calls
run_calls-IsRegistry nonce [] s fine v = v
run_calls-IsRegistry nonce (call ∷ calls) s (fine, others) v =
    run_calls-IsRegistry nonce calls (run_call nonce call s) others
      (run_call-IsRegistry nonce call s fine v)
