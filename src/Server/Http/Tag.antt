-- ===== src/Server/Http/Tag.antt =====
-- The ETag of `handleGet`: what a 304 tells the client.
use seshat_tasks.Prelude.{ℕ, ◌+◌, ◌-◌, ◌*◌, Text, [], ◌∷◌}
use seshat_tasks.Server.Store.{Store}

-- The number that digits stand for, after the number `n` before them.
value_from : ℕ → Text → ℕ
value_from n [] = n
value_from n (c ∷ s) = value_from (n * 10 + (c - b'0')) s

-- A tag without its closing quote, and the number in it.
inner : Text → Text
inner [] = []
inner (c ∷ []) = []
inner (c ∷ (d ∷ s)) = c ∷ inner (d ∷ s)

number : Text → ℕ
unfolding inner
number [] = 0
number (c ∷ s) = value_from 0 (inner s)
