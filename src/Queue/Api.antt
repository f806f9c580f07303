-- ===== src/Queue/Api.antt =====
-- What the queue and the system know of a message: struct Message of
-- TaskSystem/include/TaskSystem/Messages/Message.h with its methods, and the table `rebinder` of
-- TaskSystem/include/TaskSystem/SystemGenerated.h.
use francois_gingras_master.Common.{ℕ, ◌+◌, ◌≤◌, ◌<◌, ◌^◌, ◌≡◌, Option, some, Outcome, done, ℤ}

-- The size of the shared segment of one queue (Q_SIZE).
abbrev pub q_size : ℕ
q_size = 1000000

-- `extent` is the number of bytes that `write_at` fills. `write_at m a` gives the object that it
-- leaves at the address `a`, and the sender's object afterwards. `rebinder` is the table lookup:
-- a fault out of range, `none` for a NULL entry. Objects are passed with their address.
pub record MessageApi : Type 1 where
  pub Msg : Type 0
  pub tag : Msg → ℤ
  pub tid : Msg → ℕ
  pub msg_size : Msg → ℕ
  pub extent : Msg → ℕ
  pub clone : ℕ → Msg → Outcome Msg
  pub write_at : Msg → ℕ → Outcome (Msg × Msg)
  pub rebinder : ℕ → Outcome (Option (ℕ → Msg → Outcome Msg))

-- What the queue needs of the messages that are put into it (`IsReady`) and of those that lie in it
-- (`IsSound`). `image` and `after` describe `write_at`, `rebound` describes the entry of the table.
pub record IsLawful (api : MessageApi) : Type 1 where
  pub IsReady : api.Msg → Type 0
  pub IsSound : api.Msg → Type 0
  pub image : api.Msg → ℕ → api.Msg
  pub after : api.Msg → api.Msg
  pub rebound : ℕ → api.Msg → api.Msg
  pub extent-pos : (m : api.Msg) → 0 < api.extent m
  pub extent-le : (m : api.Msg) → IsSound m → api.extent m ≤ api.msg_size m
  pub msg_size-small : (m : api.Msg) → IsReady m → api.msg_size m + q_size < 2 ^ 31
  pub write_at-image :
      (m : api.Msg) (a : ℕ) → IsReady m → api.write_at m a ≡ done (image m a, after m)
  pub image-IsSound : (m : api.Msg) (a : ℕ) → IsReady m → IsSound (image m a)
  pub msg_size-image : (m : api.Msg) (a : ℕ) → api.msg_size (image m a) ≡ api.msg_size m
  pub rebinder-rebound :
      (m : api.Msg)
      → IsSound m
      → (f : ℕ → api.Msg → Outcome api.Msg) × (api.rebinder (api.tid m) ≡ done (some f))
        × ((a : ℕ) → f a m ≡ done (rebound a m))
  pub extent-rebound : (m : api.Msg) (a : ℕ) → api.extent (rebound a m) ≡ api.extent m
