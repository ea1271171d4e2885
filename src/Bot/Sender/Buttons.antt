-- ===== src/Bot/Sender/Buttons.antt =====
-- The buttons of a message that `keyboard` of client/bot/main.go has made.
use seshat_tasks.Prelude.{
  ℕ, suc, ◌+◌, ◌≤◌, Text, length, none, some, List, [], ◌∷◌, ◌++◌, ◌≡◌, refl, sym, ap, subst, arith,
  Option-cases, inl, inr,
}
use seshat_tasks.Bot.Registry.{Action, Registry, action_prefix, put, get}
use seshat_tasks.Bot.Registry.Reach.{Step, Reached, step, puts}
use seshat_tasks.Bot.Registry.Lasting.{Steps, here, next, Steps-Reached, Steps-trans, get-Steps}
use seshat_tasks.Bot.Render.{Button, Keyboard}
use seshat_tasks.Bot.Effect.{Outcome, ok, failed, Markup, Outside, World, M, follow, ◌>>=◌, pure}
use seshat_tasks.Bot.Sender.{mint, mint_row, mint_keyboard}

-- The number of buttons.
abbrev pub count : Keyboard → ℕ
count [] = 0
count (row ∷ rows) = length row + count rows

-- The cells of a row have the labels of its buttons, and tokens that get their actions.
abbrev pub RowWorks : List Button → List (Text × Text) → Registry → Type 0
RowWorks [] [] r = Unit {0}
RowWorks [] (c ∷ cells) r = ⊥
RowWorks (b ∷ bs) [] r = ⊥
RowWorks (b ∷ bs) ((label, token) ∷ cells) r =
    (label ≡ b.label) × ((get token r).0 ≡ some b.action) × RowWorks bs cells r

abbrev pub Works : Keyboard → Markup → Registry → Type 0
Works [] [] r = Unit {0}
Works [] (c ∷ cells) r = ⊥
Works (row ∷ rows) [] r = ⊥
Works (row ∷ rows) (cells ∷ markup) r = RowWorks row cells r × Works rows markup r

follow-eq-ok :
    {E A B : Type 0} (r : Outcome A) (f : A → M E B) (w w' : World E) (b : B)
    → follow r f w ≡ (ok b, w')
    → (a : A) × (r ≡ ok a) × (f a w ≡ (ok b, w'))
follow-eq-ok (ok a) f w w' b h = (a, refl, h)
follow-eq-ok (failed e) f w w' b h = absurd (cc h)

module _ {E : Type 0} (out : Outside E) where
  -- The token drawn next has not been drawn before.
  abbrev pub FreshDraw : World E → Type 0
  FreshDraw w =
      (random : Text)
      → (out.random w.outside).0 ≡ some random
      → w.registry.by_token (action_prefix ++ random) ≡ none

  -- So have all that a row and a keyboard draw.
  abbrev pub FreshRow : List Button → World E → Type 0
  FreshRow [] w = Unit {0}
  FreshRow (b ∷ bs) w = FreshDraw w × FreshRow bs (mint out b.action w).1

  abbrev pub FreshAll : Keyboard → World E → Type 0
  FreshAll [] w = Unit {0}
  FreshAll (row ∷ rows) w = FreshRow row w × FreshAll rows (mint_row out row w).1

  mint-put :
      (a : Action) (w : World E) (token : Text)
      → (mint out a w).0 ≡ ok token
      → (random : Text) × ((out.random w.outside).0 ≡ some random)
        × (token ≡ action_prefix ++ random)
        × ((mint out a w).1.registry ≡ (put (some random) a w.registry).1)
  unfolding mint put
  mint-put a w token h = elim (Option-cases (out.random w.outside).0) [
    | inl failed_draw ↦ absurd (ground arith)
    | inr (random, drawn) ↦ (random, drawn, ground arith, ground arith)
  ]

  -- What a run of buttons has done: one operation for each, and all of them last.
  record Minted (capacity n : ℕ) (holds : Registry → Type 0) (w w' : World E) : Type 0 where
    pub steps : Steps n w.registry w'.registry
    pub lasts : (m : ℕ) (r : Registry) → Steps m w'.registry r → n + m ≤ capacity → holds r

  mint_row-Minted :
      (capacity : ℕ) (bs : List Button) (w w' : World E) (cells : List (Text × Text))
      → Reached capacity w.registry
      → FreshRow bs w
      → mint_row out bs w ≡ (ok cells, w')
      → Minted capacity (length bs) (RowWorks bs cells) w w'
  unfolding mint_row ◌>>=◌ pure
  mint_row-Minted capacity [] w w' cells before fresh h =
      let same : w ≡ w' = cc h in
      let empty : [] ≡ cells = cc h in
      subst (λ v. Minted capacity 0 (RowWorks [] cells) w v) same
        (record {
          steps = here w.registry;
          lasts = λ m r steps room. subst (λ cs. RowWorks [] cs r) empty tt;
        })
  mint_row-Minted capacity (b ∷ bs) w w' cells before (fresh, later) h =
      let (token, e1, h1) = follow-eq-ok (mint out b.action w).0 _ w1 w' cells h in
      let (cs, e2, h2) = follow-eq-ok (mint_row out bs w1).0 _ w2 w' cells h1 in
      let (random, drawn, tok, made) = mint-put b.action w token e1 in
      let first : Step w.registry w1.registry =
        subst (Step w.registry) (sym made) (puts random b.action (fresh random drawn)) in
      let rest =
        mint_row-Minted capacity bs w1 w2 cs (step before first) later (ap (λ o. (o, w2)) e2) in
      let same : w2 ≡ w' = cc h2 in
      let built : (b.label, token) ∷ cs ≡ cells = cc h2 in
      subst (λ v. Minted capacity (suc (length bs)) (RowWorks (b ∷ bs) cells) w v) same
        (record {
          steps =
              subst (λ k. Steps k w.registry w2.registry) (omega arith)
                (Steps-trans (next (here w.registry) first) rest.steps);
          lasts = λ m r steps room.
              subst (λ x. RowWorks (b ∷ bs) x r) built
                (
                  refl,
                  subst (λ t. (get t r).0 ≡ some b.action) (sym tok)
                      (get-Steps w.registry r random b.action before (fresh random drawn)
                        (subst (λ x. Steps (length bs + m) x r) made (Steps-trans rest.steps steps))
                        (omega arith)),
                  rest.lasts m r steps (omega arith),
                );
        })
    where
      w1 : World E
      w1 = (mint out b.action w).1

      w2 : World E
      w2 = (mint_row out bs w1).1

  mint_keyboard-Minted :
      (capacity : ℕ) (kb : Keyboard) (w w' : World E) (markup : Markup)
      → Reached capacity w.registry
      → FreshAll kb w
      → mint_keyboard out kb w ≡ (ok markup, w')
      → Minted capacity (count kb) (Works kb markup) w w'
  unfolding mint_keyboard ◌>>=◌ pure
  mint_keyboard-Minted capacity [] w w' markup before fresh h =
      let same : w ≡ w' = cc h in
      let empty : [] ≡ markup = cc h in
      subst (λ v. Minted capacity 0 (Works [] markup) w v) same
        (record {
          steps = here w.registry;
          lasts = λ m r steps room. subst (λ cs. Works [] cs r) empty tt;
        })
  mint_keyboard-Minted capacity (row ∷ rows) w w' markup before (fresh, later) h =
      let (cells, e1, h1) = follow-eq-ok (mint_row out row w).0 _ w1 w' markup h in
      let (others, e2, h2) = follow-eq-ok (mint_keyboard out rows w1).0 _ w2 w' markup h1 in
      let first = mint_row-Minted capacity row w w1 cells before fresh (ap (λ o. (o, w1)) e1) in
      let rest =
        mint_keyboard-Minted capacity rows w1 w2 others (Steps-Reached before first.steps) later
          (ap (λ o. (o, w2)) e2) in
      let same : w2 ≡ w' = cc h2 in
      let built : cells ∷ others ≡ markup = cc h2 in
      subst (λ v. Minted capacity (length row + count rows) (Works (row ∷ rows) markup) w v) same
        (record {
          steps = Steps-trans first.steps rest.steps;
          lasts = λ m r steps room.
              subst (λ x. Works (row ∷ rows) x r) built
                (
                  first.lasts (count rows + m) r (Steps-trans rest.steps steps) (omega arith),
                  rest.lasts m r steps (omega arith),
                );
        })
    where
      w1 : World E
      w1 = (mint_row out row w).1

      w2 : World E
      w2 = (mint_keyboard out rows w1).1

  -- Every button of a keyboard does what it was drawn for: in a registry for `capacity` entries, if
  -- no token that the keyboard draws was drawn before, each cell of the markup has the label of its
  -- button, and its token gets the button's action, from then on until as many operations have
  -- followed as the capacity exceeds the number of the buttons.
  pub mint_keyboard-Works :
      {capacity m : ℕ} (kb : Keyboard) (w w' : World E) (markup : Markup) (r : Registry)
      → Reached capacity w.registry
      → FreshAll kb w
      → mint_keyboard out kb w ≡ (ok markup, w')
      → Steps m w'.registry r
      → count kb + m ≤ capacity
      → Works kb markup r
  mint_keyboard-Works {capacity} {m} kb w w' markup r before fresh h steps room =
      (mint_keyboard-Minted capacity kb w w' markup before fresh h).lasts m r steps room
