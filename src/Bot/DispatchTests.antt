-- ===== src/Bot/DispatchTests.antt =====
-- Updates of a stranger, and of a user of the configuration who writes in a group.
use seshat_tasks.Prelude.{lit, utf8, some, none, List, [], ◌∷◌, ◌≡◌, arith, inl, inr}
use seshat_tasks.Prelude.Int.{pos}
use seshat_tasks.Bot.Dispatch.{Update, dispatch_all}
use seshat_tasks.Bot.Dispatch.Strangers.{
  IsWelcome, LeavesOut, done, keeps, skips, dispatch_all-LeavesOut,
}
use seshat_tasks.Bot.HandlerTests.{office, morning, config, message, says}

abbrev stranger : Update
stranger = says (pos 8) (lit "/list")

abbrev in_group : Update
in_group = record {
  message = some (record (message (pos 7) (lit "/list")) { chat_type = lit "group" });
  callback = none;
}

abbrev welcome : List Update
welcome = says (pos 7) (lit "Buy milk") ∷ (says (pos 7) (lit "/list") ∷ [])

stranger_unwelcome : ¬ IsWelcome config stranger
stranger_unwelcome (user, m, inl (sent, by), private, inl listed) = absurd (ground arith)
stranger_unwelcome (user, m, inl (sent, by), private, inr nobody) = nobody
stranger_unwelcome (user, m, inr (cq, tapped, of, by), private, listed) = absurd (cc tapped)

group_unwelcome : ¬ IsWelcome config in_group
unfolding lit utf8
group_unwelcome (user, m, inl (sent, by), private, listed) = absurd (ground arith)
group_unwelcome (user, m, inr (cq, tapped, of, by), private, listed) = absurd (cc tapped)

leaves_out : LeavesOut config (stranger ∷ (in_group ∷ welcome)) welcome
leaves_out =
    skips stranger stranger_unwelcome (skips in_group group_unwelcome (keeps _ (keeps _ done)))

dispatch_all-LeavesOut_example :
    dispatch_all office config (pos 9) (stranger ∷ (in_group ∷ welcome)) morning
    ≡ dispatch_all office config (pos 9) welcome morning
dispatch_all-LeavesOut_example =
    dispatch_all-LeavesOut office config (pos 9) (stranger ∷ (in_group ∷ welcome)) welcome morning
      leaves_out
