-- ===== src/Target/Reserve.antt =====
-- RESERVE and RELEASE of a whole device by a nexus: `device_reserve`, `device_release` and
-- `device_reserved` of usr/target.c, and `sbc_reserve` and `sbc_release` of usr/sbc.c.
--
-- The look-up of the device by its own LUN finds the device itself.
use tgt.Base.{ℕ, Bool, true, false, not, ◌&&◌, ◌||◌, some, ◌==◌, if◌then◌else◌}
use tgt.Scsi.Codes
use tgt.Scsi.Lu.{ScsiLu, Env, Outcome}

-- `true` is the code's -EBUSY.
unfoldable pub device_reserved : Env → Bool
device_reserved env =
    if (env.dev.reserve_id == 0) || (env.dev.reserve_id == env.cmd.cmd_itn_id) then false else true

unfoldable pub device_reserve : Env → Bool × Env
device_reserve env =
    if not (env.dev.reserve_id == 0) && not (env.dev.reserve_id == env.cmd.cmd_itn_id)
    then (true, env)
    else (false, record env { dev = record env.dev { reserve_id = env.cmd.cmd_itn_id } })

-- A release by a nexus that does not hold the device succeeds and changes nothing.
unfoldable pub device_release : ℕ → Bool → ScsiLu → Bool × ScsiLu
device_release itn_id force lu =
    if force || (lu.reserve_id == itn_id)
    then (false, record lu { reserve_id = 0 })
    else if not (lu.reserve_id == itn_id)
    then (false, lu)
    else (true, lu)

unfoldable pub sbc_reserve : Env → Outcome
unfolding device_reserve
sbc_reserve env =
    let (busy, after) = device_reserve env in
    some (if busy then Codes.sam_stat_reservation_conflict else Codes.sam_stat_good, after)

unfoldable pub sbc_release : Env → Outcome
unfolding device_release
sbc_release env =
    let (busy, lu) = device_release env.cmd.cmd_itn_id false env.dev in
    some (
      if busy then Codes.sam_stat_reservation_conflict else Codes.sam_stat_good,
      record env { dev = lu },
    )
