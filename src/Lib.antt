-- ===== src/Lib.antt =====
-- The SCSI core of tgt, the Linux SCSI target framework: persistent reservations, the disk's READ
-- and WRITE, unit attentions, device reservations, the command queue of a logical unit and the
-- moves of a medium changer; and parts of its iSCSI driver: a connection from its start to the
-- full feature phase, with text keys, negotiation and CHAP, and the order of commands after it.
--
-- A command reaches usr/target.c, where the queue of its logical unit admits it or makes it wait
-- (`target_cmd_perform`). An admitted command passes the checks of usr/scsi.c, `spc_access_check`
-- of usr/spc.c among them, and goes to the handler of its operation code: usr/sbc.c for a disk,
-- usr/spc.c for what all devices share. Handlers report errors as sense data in the command, and
-- add unit attentions to the nexuses of the target.
--
-- Files and the code they model:
--   Base, Base/*         tests, lists and C memory: a buffer is a function from offsets to bytes,
--                        with the big-endian accessors of usr/be_byteshift.h
--   Scsi/Codes           the constants of usr/scsi.h
--   Scsi/Cmd             `struct scsi_cmd` and its data buffers, usr/scsi_cmnd.h; sense data
--   Scsi/Cdb             command blocks, usr/scsi.c: sizes, `scsi_rw_offset`, `scsi_rw_count`
--   Scsi/Usage           `get_scsi_cdb_usage_data`, usr/scsi.c; Scsi/UsageSize: its size
--   Scsi/Lu              `struct scsi_lu` and `struct registration`, usr/tgtd.h. An `Env` is what
--                        a handler reads and writes: command, logical unit, nexuses. An `Outcome`
--                        is a status with the state after it, or `none` where the code follows a
--                        null or stale pointer
--   Scsi/Ranges          bounds of the fields of a command block
--   Target/Nexus         nexuses and unit attentions, usr/target.c (`ua_sense_*`)
--   Target/Reserve       `device_reserve`, `device_release`, `device_reserved`
--   Target/Queue         the command queue: `cmd_enabled`, `post_cmd_done`, `__cmd_done`, with
--                        submissions and completions as a step relation
--   Target/Progress, Target/Ordering        proofs on the queue
--   Target/Lookup        `struct target` with its access lists and accounts, and its look-up
--   Target/Acl           access lists of targets, the end of usr/target.c; Target/AclRoundTrip
--   Target/Account       accounts, usr/target.c: `account_add`, `account_del`, `account_ctl`,
--                        `account_lookup`, `account_available`
--   Target/Places, Target/AccountPlaces, Target/AccountList, Target/AccountKept,
--   Target/AccountHidden proofs on them
--   Iscsi/Acl            `iqn_acl`, usr/iscsi/target.c
--   Spc/Registration     look-ups and the checks that the PERSISTENT RESERVE OUT handlers share
--   Spc/Register, Spc/Reserve, Spc/Preempt, Spc/Move       those handlers, usr/spc.c
--   Spc/Access           `spc_access_check`
--   Spc/In               the handlers of PERSISTENT RESERVE IN; Spc/ReadKeys: what READ KEYS reports
--   Spc/Actions          `spc_service_action` and the tables of PERSISTENT RESERVE IN and OUT;
--                        Spc/Reached: the logical units that these commands lead to
--   Spc/Store, Spc/Invariant, Spc/SafeClean, Spc/SafeRegister, Spc/SafePreempt, Spc/Stranded,
--   Spc/Moved, Spc/Reserved                 proofs on them
--   Sbc/Ops              the column of conflict bits of the table in usr/sbc.c
--   Sbc/Rw               `sbc_rw`, with the checks before the backing store as `prepare`
--   Sbc/Protection, Sbc/Excludes, Sbc/Bounds         proofs on the disk
--   Perform              `scsi_cmd_perform` of usr/scsi.c, without its statistics; Perform/Guards:
--                        what it does while a unit attention waits
--   Smc/Slots, Smc/Move  the slots of a medium changer and `smc_move_medium`, usr/smc.c;
--                        Smc/Branches, Smc/Effects, Smc/Media, Smc/Moved: proofs on them
--   Iscsi/Keys           `next_key` and `text_key_add`, usr/iscsi/iscsid.c; Iscsi/KeysRoundTrip
--   Iscsi/Param          the session keys and their functions, usr/iscsi/param.c; Iscsi/Fits
--   Iscsi/Login          `text_scan_login`; Iscsi/LoginFits, Iscsi/Offers: proofs on it
--   Iscsi/Security       `text_scan_security`; Iscsi/SecurityMethod
--   Iscsi/Sequence       `iscsi_task_queue`; Iscsi/InOrder, Iscsi/Wedge: proofs on it
--   Iscsi/Base64         base64 of usr/iscsi/chap.c; Iscsi/Base64RoundTrip
--   Iscsi/Chap           `chap_check_encoding_format`, the size that `chap_alloc_decode_buffer`
--                        allocates, `chap_decode_string`; Iscsi/ChapBounds, Iscsi/ChapOverflow
--   Iscsi/Conn/State     `struct iscsi_connection`, usr/iscsi/iscsid.h, and a request's header
--   Iscsi/Conn/Portal    what a login asks of the rest of the target and of the process
--   Iscsi/Conn/Find      `text_key_find`; Iscsi/Conn/CheckParam: `text_check_param`
--   Iscsi/Conn/Start     `login_start`
--   Iscsi/Conn/AuthChap  the steps of CHAP, usr/iscsi/chap.c
--   Iscsi/Conn/Phases    `cmnd_exec_login` and what it calls, `cmnd_finish`
--   Iscsi/Conn/Text      `cmnd_exec_text`, `target_list_build`, `cmnd_exec_logout`
--   Iscsi/Conn/Execute   `cmnd_execute`, and the ends of `iscsi_rx_handler` and `iscsi_tx_handler`
--   Iscsi/Conn/Guarded, Iscsi/Conn/Answers, Iscsi/Conn/Transit, Iscsi/Conn/Stages,
--   Iscsi/Conn/Authenticated, Iscsi/Conn/TextKeeps, Iscsi/Conn/Attempts,
--   Iscsi/Conn/TextWhole, Iscsi/Conn/TextPadded   proofs on it
--   Iscsi/Conn/Administered                 a login with the accounts and lists of usr/target.c
--   Tests, Tests/*       the theorems at concrete inputs
--
-- A registration is named by its address, since `pr_holder` is a pointer: the list holds the live
-- registrations, and `deref` looks an address up in it. The allocator's result is an argument of
-- REGISTER. The driver's `transportid` and the backing store's `bs_cmd_submit` are arguments too.
-- So are `strtol` and the print of numbers, whether `realloc` gives memory, and what the drives of
-- a changer answer. Loops are recursion on the list that the code walks. The scans of text keys
-- and of digests take fuel, as much as there are bytes, since each round passes one; the search of
-- an access list by index takes one more than there are entries, since the last round finds the
-- end; the search of a free account number takes INT_MAX, the code's own bound. Integers carry the
-- wrap of their C type where the code computes with them (`u32`, `u64`).
--
-- A logical unit is valid (Spc.Invariant.IsValid) where the registrations have different addresses
-- and nexuses and no key is 0, and `pr_holder` is null or points to a live registration whose type
-- and scope are those that RESERVE accepts.
--
-- The queue counts a command from its start to its completion and leaves out what the handler does
-- meanwhile; `active_cmd` stops at 0, where the code's int would go below; a command is a tag with
-- an attribute there. A completion is a step of its own, also where the code completes a command
-- within `target_cmd_perform`.
--
-- A slot of a changer is named by its place in the list. The text fields of a slot are lists of
-- bytes, and a barcode is read as a string within its own field.
--
-- A login takes the other parts of the target as a `Portal`: the look-up of targets, sessions and
-- accounts, the access lists, the transport, the hash functions of CHAP; `with_admin` makes its
-- accounts and lists those that usr/target.c administers. Accounts do not change during a login. A
-- `Chance` is what a request finds of the process: the counter of challenges, random bytes, the
-- content of new memory and whether there is memory. Bytes of new memory that a short response
-- leaves unwritten are compared as they are; bytes written beyond a buffer's end are not followed.
-- The rest of a text is the part of `rsp_buffer` that `text_rsp_buffer` points to: it shows what
-- the padding of a PDU, a login's response and a reject write there, but a reallocation that moves
-- the buffer is not followed. Requests are steps: one is received and executed, a response is
-- sent.
--
-- An account is known by its number: `in_aids` holds numbers, 0 at a free place. The static array
-- of the global target and one that is allocated are not told apart.
--
-- Not modelled: the other disk commands, inquiry and mode pages, the other commands of the
-- changer, the other device types (usr/mmc.c, usr/ssc.c, usr/osd.c, usr/scc.c), the rest of iSCSI
-- (usr/iscsi: transports, sessions, addresses in access lists, the full feature phase but for the
-- order of commands), the administration of targets but for their access lists and accounts
-- (usr/mgmt.c, usr/tgtadm.c, the first parts of usr/target.c), backing stores (usr/bs*.c) and the
-- daemon: input, output, configuration, or parts of their own.
pub mod Base
pub mod Scsi
pub mod Target
pub mod Spc
pub mod Sbc
pub mod Smc
pub mod Iscsi
pub mod Perform
pub mod Tests
