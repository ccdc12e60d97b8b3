-- ===== src/Anytls/Padding/Valid.antt =====
-- What `Padding::parse` of src/anytls.rs accepts.
use zc.Prelude.{
  ℕ, ◌+◌, ◌≤◌, ◌<◌, ◌≡◌, not, List, [], ◌∷◌, length, All, ◌&&◌, within, ok_or, ok, arith, Ensures,
  Ensures-any, Ensures-bind, Ensures-guard, Ensures-pure, ◌==◌, ltb,
}
use zc.Prelude.Text.{Text, bytes, text_eq, decimal, split}
use zc.Anytls.Io.{invalid}
use zc.Anytls.Padding.{
  PadStep, size, check, Groups, Padding, max_stop, max_padding, size_limit, parse_step, parse_steps,
  parse_group, parse_groups, parse, number, Fields, fields, get_field, remove_field,
}

-- A step that a group may hold.
abbrev pub IsStep : ℕ → PadStep → Type 0
IsStep group (size least most) = (1 ≤ least) × (least ≤ most) × (most ≤ size_limit group)
IsStep group check = ¬ (group ≡ 0)

-- The bytes that a step adds at most: its size and a frame header.
abbrev pub overhead : List PadStep → ℕ
overhead [] = 0
overhead (size least most ∷ steps) = most + 7 + overhead steps
overhead (check ∷ steps) = overhead steps

abbrev pub group_overhead : Groups → ℕ
group_overhead [] = 0
group_overhead ((g, steps) ∷ rest) = overhead steps + group_overhead rest

pub record IsGroup (stop : ℕ) (g : ℕ × List PadStep) : Type 0 where
  pub before_stop : g.0 < stop
  pub few_steps : length g.1 ≤ 16
  pub steps : All (IsStep g.0) g.1
  pub authentication : g.0 ≡ 0 → length g.1 ≡ 1

pub record IsPadding (p : Padding) : Type 0 where
  pub stop_positive : 1 ≤ p.stop
  pub stop_bounded : p.stop ≤ max_stop
  pub groups : All (IsGroup p.stop) p.groups
  pub bounded : group_overhead p.groups ≤ max_padding

parse_step-IsStep :
    (group : ℕ) (step : Text) (before : ℕ) (s : PadStep) (after : ℕ)
    → parse_step group step before ≡ ok (s, after)
    → before ≤ max_padding
    → IsStep group s × (after ≡ before + overhead (s ∷ [])) × (after ≤ max_padding)
unfolding parse_step
parse_step-IsStep group step before (size l m) after h le = ground arith
parse_step-IsStep group step before check after h le = ground arith

abbrev StepsFrom : ℕ → ℕ → ℕ → List PadStep × ℕ → Type 0
StepsFrom group count before (ss, after) =
    All (IsStep group) ss
    × (length ss + count ≤ 16)
    × (after ≡ before + overhead ss)
    × (after ≤ max_padding)

append_step :
    (group count before : ℕ) (s : PadStep) (mid : ℕ) (ss : List PadStep) (after : ℕ)
    → IsStep group s × (mid ≡ before + overhead (s ∷ [])) × (mid ≤ max_padding)
    → StepsFrom group (count + 1) mid (ss, after)
    → StepsFrom group count before (s ∷ ss, after)
append_step group count before (size l m) mid ss after h k =
    ((h.0, k.0), omega arith, omega arith, k.3)
append_step group count before check mid ss after h k = ((h.0, k.0), omega arith, omega arith, k.3)

parse_steps-IsStep :
    (group count : ℕ) (texts : List Text) (before : ℕ)
    → count ≤ 16
    → before ≤ max_padding
    → Ensures (StepsFrom group count before) (parse_steps group count texts before)
unfolding parse_steps
parse_steps-IsStep group count [] before c le = Ensures-pure _ _ (ground arith)
parse_steps-IsStep group count (t ∷ texts) before c le =
    Ensures-guard (not (count == 16)) _ _ λ room.
      Ensures-any (parse_step group t before) _ λ (s, mid) e.
        let step = parse_step-IsStep group t before s mid e le in
        Ensures-bind _ _ (parse_steps-IsStep group (count + 1) texts mid (ground arith) step.2)
          λ (ss, after) h.
            Ensures-pure _ (s ∷ ss, after) (append_step group count before s mid ss after step h)

parse_group-IsGroup :
    (stop : ℕ) (key value : Text) (before : ℕ)
    → before ≤ max_padding
    → Ensures
        (λ (r : (ℕ × List PadStep) × ℕ).
          IsGroup stop r.0 × (r.1 ≡ before + overhead r.0.1) × (r.1 ≤ max_padding))
        (parse_group stop key value before)
unfolding parse_group
parse_group-IsGroup stop key value before le = Ensures-any (number key) _ λ group e.
    Ensures-guard (ltb group stop && text_eq key (decimal group)) _ _ λ known.
      Ensures-bind _ _ (parse_steps-IsStep group 0 (split b',' value) before (omega arith) le)
        λ (steps, after) h.
          Ensures-guard (not (group == 0 && not (length steps == 1))) _ _ λ single.
            Ensures-pure _ ((group, steps), after)
              (
                record {
                  before_stop = ground arith;
                  few_steps = omega arith;
                  steps = h.0;
                  authentication = ground arith;
                },
                h.2,
                h.3,
              )

abbrev GroupsFrom : ℕ → ℕ → Groups × ℕ → Type 0
GroupsFrom stop before (groups, after) =
    All (IsGroup stop) groups × (after ≡ before + group_overhead groups) × (after ≤ max_padding)

parse_groups-IsGroup :
    (stop : ℕ) (fs : Fields) (before : ℕ)
    → before ≤ max_padding
    → Ensures (GroupsFrom stop before) (parse_groups stop fs before)
unfolding parse_groups
parse_groups-IsGroup stop [] before le = Ensures-pure _ _ (ground arith)
parse_groups-IsGroup stop ((key, value) ∷ rest) before le =
    Ensures-bind _ _ (parse_group-IsGroup stop key value before le) λ ((group, steps), mid) h.
      Ensures-bind _ _ (parse_groups-IsGroup stop rest mid h.2) λ (groups, after) k.
        Ensures-pure _ ((group, steps) ∷ groups, after) ((h.0, k.0), omega arith, k.2)

parse-Ensures : (digest : Text → Text) (raw : Text) → Ensures IsPadding (parse digest raw)
unfolding parse
parse-Ensures digest raw = Ensures-any (fields raw) _ λ all_fields _.
    Ensures-any (ok_or invalid (get_field (bytes "stop") all_fields)) _ λ text _.
      Ensures-any (number text) _ λ stop _. Ensures-guard (within 1 max_stop stop) _ _ λ range.
        Ensures-bind _ _
          (parse_groups-IsGroup stop (remove_field (bytes "stop") all_fields) 0 (omega arith))
          λ (groups, total) h. Ensures-pure _ _ (record {
            stop_positive = ground arith;
            stop_bounded = ground arith;
            groups = h.0;
            bounded = omega arith;
          })

-- A scheme that `Padding::parse` accepts stops after 1 to 32 groups; each of its groups lies before the
-- stop, has at most 16 steps, and each size has 1 <= min <= max within the group's limit; the
-- authentication group, 0, is one size with no check; and all sizes with a header each sum up to at
-- most 65536.
pub parse-IsPadding :
    (digest : Text → Text) (raw : Text) (p : Padding) → parse digest raw ≡ ok p → IsPadding p
parse-IsPadding digest raw p e = (parse-Ensures digest raw).holds p e
