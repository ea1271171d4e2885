-- ===== src/Bot/View/Rows.antt =====
-- Summaries of the rows of a group.
use Prim.Native.Nat.{max}
use seshat_tasks.Prelude.{ℕ, Bool, false, ◌||◌, [], ◌∷◌, ◌++◌, ◌≡◌, refl, arith}
use seshat_tasks.Prelude.Int.{ℤ}
use seshat_tasks.Bot.View.{urgency, Group, is_open}

-- The largest urgency of the rows.
unfoldable pub max_urgency : Group → ℤ → ℕ
max_urgency [] now = 0
max_urgency (r ∷ rows) now = max (urgency r.task now) (max_urgency rows now)

unfoldable pub any_open : Group → Bool
any_open [] = false
any_open (r ∷ rows) = is_open r.task || any_open rows

pub max_urgency-append :
    (a b : Group) (now : ℤ) → max_urgency (a ++ b) now ≡ max (max_urgency a now) (max_urgency b now)
unfolding max_urgency
max_urgency-append [] b now = omega arith
max_urgency-append (r ∷ a) b now = omega (arith, max_urgency-append a b now)

pub any_open-append : (a b : Group) → any_open (a ++ b) ≡ (any_open a || any_open b)
unfolding any_open
any_open-append [] b = refl
any_open-append (r ∷ a) b = ground (arith, any_open-append a b)
