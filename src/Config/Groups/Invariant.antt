-- ===== src/Config/Groups/Invariant.antt =====
-- The invariant of the search over the groups of src/config.rs, and each round's part in it.
use zc.Prelude.{
  ℕ, zero, suc, ◌+◌, ◌<◌, ◌≤◌, ◌≡◌, ◌≢◌, refl, sym, ap, subst, ◌∙◌, some, List, [], ◌∷◌, length,
  get_elem?, set, take, All, arith, ◌⊎◌, inl, inr, get_elem?-set_self, get_elem?-set_ne, length-set,
}
use zc.Config.Groups.{members, Search}
use zc.Config.Groups.Settles.{Settles, Settles-suc, All-map}
use zc.Config.Groups.Marks.{
  IsBlack, blacks, blacks-set_1, blacks-set_2, get_elem?-lt, get_elem?-set_cases, set-IsBlack,
  some_injective,
}

module _ (proxies : ℕ) (edges : List (List ℕ)) where
  -- The frames of the stack: each node is marked 1, and the members that it has passed are left
  -- behind, but for the one that is searched above it.
  abbrev pub Frames : List ℕ → (ℕ → Type 0) → List (ℕ × ℕ) → Type 0
  Frames marks P [] = Unit
  Frames marks P ((n, next) ∷ rest) =
      (get_elem? marks n ≡ some 1)
      × All (λ f. ◌≢◌ {A = ℕ} f.0 n) rest
      × All P (take next (members proxies edges n))
      × Frames marks (λ m. IsBlack marks m ⊎ (m ≡ n)) rest

  abbrev pub IsOn : ℕ → List (ℕ × ℕ) → Type 0
  IsOn i [] = ◌≡◌ {A = ℕ} 0 1
  IsOn i ((n, next) ∷ rest) = (i ≡ n) ⊎ IsOn i rest

  pub record IsSearch (s : Search) : Type 0 where
    pub width : length s.marks ≡ proxies + length edges
    pub small : (i m : ℕ) → get_elem? s.marks i ≡ some m → m ≤ 2
    -- So many groups were left behind.
    pub depth : ℕ
    pub counted : depth + proxies ≤ blacks s.marks
    pub settled : (i : ℕ) → IsBlack s.marks i → Settles proxies edges depth i
    pub frames : Frames s.marks (λ m. IsBlack s.marks m) s.stack
    pub on_stack : (i : ℕ) → get_elem? s.marks i ≡ some 1 → IsOn i s.stack

  set-Frames :
      (marks : List ℕ) (c v m : ℕ) (P Q : ℕ → Type 0) (st : List (ℕ × ℕ))
      → get_elem? marks c ≡ some m
      → m < 2
      → All (λ f. ◌≢◌ {A = ℕ} f.0 c) st
      → ((i : ℕ) → P i → Q i)
      → Frames marks P st
      → Frames (set marks c v) Q st
  set-Frames marks c v m P Q [] h small other f fs = tt
  set-Frames marks c v m P Q ((n, next) ∷ rest) h small (other, others) f
        (grey, apart, passed, fs) =
      (
        get_elem?-set_ne marks c n v (λ e. other (sym e)) ∙ grey,
        apart,
        All-map proxies edges (take next (members proxies edges n)) f passed,
        set-Frames marks c v m (λ i. IsBlack marks i ⊎ (i ≡ n))
            (λ i. IsBlack (set marks c v) i ⊎ (i ≡ n)) rest h small others
            (λ i p. elim p [ inl b ↦ inl (set-IsBlack marks c v m i h small b) | inr e ↦ inr e ])
            fs,
      )

  -- A node without a mark is not on the stack.
  Frames-apart :
      (marks : List ℕ) (c : ℕ) (P : ℕ → Type 0) (st : List (ℕ × ℕ))
      → get_elem? marks c ≡ some 0
      → Frames marks P st
      → All (λ f. ◌≢◌ {A = ℕ} f.0 c) st
  Frames-apart marks c P [] h fs = tt
  Frames-apart marks c P ((n, next) ∷ rest) h (grey, apart, passed, fs) = (
    λ e. absurd (
        let f : some 1 ≡ some 0 = sym grey ∙ ap (get_elem? marks) e ∙ h in
        omega (arith, some_injective f)),
    Frames-apart marks c (λ m. IsBlack marks m ⊎ (m ≡ n)) rest h fs,
  )

  pub take-length : (xs : List ℕ) → take (length xs) xs ≡ xs
  take-length [] = refl
  take-length (x ∷ xs) = ap (λ ys. x ∷ ys) (take-length xs)

  take-suc :
      (P : ℕ → Type 0) (xs : List ℕ) (i x : ℕ)
      → get_elem? xs i ≡ some x
      → All P (take i xs)
      → P x
      → All P (take (suc i) xs)
  take-suc P [] i x e hs p = cc
  take-suc P (y ∷ xs) zero x e hs p = (subst P (cc) p, tt)
  take-suc P (y ∷ xs) (suc i) x e (h, hs) p = (h, take-suc P xs i x e hs p)

  -- A node whose members are all left behind is left behind.
  pub pop-IsSearch :
      (marks : List ℕ) (n : ℕ) (rest : List (ℕ × ℕ))
      → IsSearch (record { marks = marks; stack = (n, length (members proxies edges n)) ∷ rest })
      → IsSearch (record { marks = set marks n 2; stack = rest })
  pop-IsSearch marks n rest v =
      let (grey, apart, passed, fs) = v.frames in
      let black : IsBlack (set marks n 2) n = record {
        above = 0;
        mark = get_elem?-set_self marks n 2 (get_elem?-lt marks n 1 grey);
      } in
      record {
        width = length-set marks n 2 ∙ v.width;
        small = λ i m e. elim (get_elem?-set_cases marks n 2 i m e) [
          | inl (same, e') ↦ omega (arith, e')
          | inr (other, e') ↦ v.small i m e'
        ];
        depth = suc v.depth;
        counted = omega (arith, v.counted, blacks-set_2 marks n grey);
        settled = λ i b. elim (get_elem?-set_cases marks n 2 i (suc (suc b.above)) b.mark) [
          | inl (e, e') ↦ inr (
            omega (arith, e, v.width, get_elem?-lt marks n 1 grey),
            subst (λ k. All (Settles proxies edges v.depth) (members proxies edges k)) (sym e)
                (subst (λ xs. All (Settles proxies edges v.depth) xs)
                  (take-length (members proxies edges n))
                  (All-map proxies edges
                    (take (length (members proxies edges n)) (members proxies edges n)) v.settled
                    passed)),
          )
          | inr (other, e) ↦
              Settles-suc proxies edges v.depth i
                (v.settled i (record { above = b.above; mark = e }))
        ];
        frames =
            set-Frames marks n 2 1 (λ i. IsBlack marks i ⊎ (i ≡ n)) (λ i. IsBlack (set marks n 2) i)
              rest grey (omega arith) apart
              (λ i p. elim p [
                | inl b ↦ set-IsBlack marks n 2 1 i grey (omega arith) b
                | inr e ↦ subst (λ k. IsBlack (set marks n 2) k) (sym e) black
              ])
              fs;
        on_stack = λ i e. elim (get_elem?-set_cases marks n 2 i 1 e) [
          | inl (e', e'') ↦ absurd (omega (arith, e''))
          | inr (other, e') ↦ elim (v.on_stack i e') [
            | inl same ↦ absurd (other (sym same))
            | inr on ↦ on
          ]
        ];
      }

  -- A member that was left behind is passed.
  pub pass-IsSearch :
      (marks : List ℕ) (n next child : ℕ) (rest : List (ℕ × ℕ))
      → get_elem? (members proxies edges n) next ≡ some child
      → IsBlack marks child
      → IsSearch (record { marks = marks; stack = (n, next) ∷ rest })
      → IsSearch (record { marks = marks; stack = (n, suc next) ∷ rest })
  pass-IsSearch marks n next child rest e b v =
      let (grey, apart, passed, fs) = v.frames in
      record {
        width = v.width;
        small = v.small;
        depth = v.depth;
        counted = v.counted;
        settled = v.settled;
        frames = (
          grey,
          apart,
          take-suc (λ m. IsBlack marks m) (members proxies edges n) next child e passed b,
          fs,
        );
        on_stack = v.on_stack;
      }

  -- A member without a mark is searched above its group.
  pub push-IsSearch :
      (marks : List ℕ) (n next child : ℕ) (rest : List (ℕ × ℕ))
      → get_elem? (members proxies edges n) next ≡ some child
      → get_elem? marks child ≡ some 0
      → IsSearch (record { marks = marks; stack = (n, next) ∷ rest })
      → IsSearch (record { marks = set marks child 1; stack = (child, 0) ∷ (n, suc next) ∷ rest })
  push-IsSearch marks n next child rest e white v =
      let (grey, apart, passed, fs) = v.frames in
      let apart' : All (λ f. ◌≢◌ {A = ℕ} f.0 child) ((n, next) ∷ rest) =
        Frames-apart marks child (λ m. IsBlack marks m) ((n, next) ∷ rest) white v.frames in
      let keep : (i : ℕ) → IsBlack marks i → IsBlack (set marks child 1) i =
        λ i b. set-IsBlack marks child 1 0 i white (omega arith) b in
      record {
        width = length-set marks child 1 ∙ v.width;
        small = λ i m e. elim (get_elem?-set_cases marks child 1 i m e) [
          | inl (same, e') ↦ omega (arith, e')
          | inr (other, e') ↦ v.small i m e'
        ];
        depth = v.depth;
        counted = omega (arith, v.counted, blacks-set_1 marks child white);
        settled = λ i b. elim (get_elem?-set_cases marks child 1 i (suc (suc b.above)) b.mark) [
          | inl (e', e'') ↦ absurd (omega (arith, e''))
          | inr (other, e') ↦ v.settled i (record { above = b.above; mark = e' })
        ];
        frames = (
          get_elem?-set_self marks child 1 (get_elem?-lt marks child 0 white),
          (apart'.0, apart'.1),
          tt,
          (
            get_elem?-set_ne marks child n 1 (λ q. apart'.0 (sym q)) ∙ grey,
            apart,
            take-suc (λ m. IsBlack (set marks child 1) m ⊎ (m ≡ child)) (members proxies edges n)
                next child e
                (All-map proxies edges (take next (members proxies edges n)) (λ i b. inl (keep i b))
                  passed)
                (inr refl),
            set-Frames marks child 1 0 (λ i. IsBlack marks i ⊎ (i ≡ n))
                (λ i. IsBlack (set marks child 1) i ⊎ (i ≡ n)) rest white (omega arith) apart'.1
                (λ i p. elim p [ inl b ↦ inl (keep i b) | inr q ↦ inr q ]) fs,
          ),
        );
        on_stack = λ i q. elim (get_elem?-set_cases marks child 1 i 1 q) [
          | inl (e', e'') ↦ inl e'
          | inr (other, e') ↦ inr (v.on_stack i e')
        ];
      }

  -- A group that a root's search starts from.
  pub start-IsSearch :
      (marks : List ℕ) (root : ℕ)
      → get_elem? marks root ≡ some 0
      → IsSearch (record { marks = marks; stack = [] })
      → IsSearch (record { marks = set marks root 1; stack = (root, 0) ∷ [] })
  start-IsSearch marks root white v = record {
    width = length-set marks root 1 ∙ v.width;
    small = λ i m e. elim (get_elem?-set_cases marks root 1 i m e) [
      | inl (same, e') ↦ omega (arith, e')
      | inr (other, e') ↦ v.small i m e'
    ];
    depth = v.depth;
    counted = omega (arith, v.counted, blacks-set_1 marks root white);
    settled = λ i b. elim (get_elem?-set_cases marks root 1 i (suc (suc b.above)) b.mark) [
      | inl (e', e'') ↦ absurd (omega (arith, e''))
      | inr (other, e') ↦ v.settled i (record { above = b.above; mark = e' })
    ];
    frames = (get_elem?-set_self marks root 1 (get_elem?-lt marks root 0 white), tt, tt, tt);
    on_stack = λ i q. elim (get_elem?-set_cases marks root 1 i 1 q) [
      | inl (e', e'') ↦ inl e'
      | inr (other, e') ↦ inr (v.on_stack i e')
    ];
  }
