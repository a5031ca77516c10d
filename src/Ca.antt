-- ===== src/Ca.antt =====
-- src/ca.c: the action of an audited command. What is here is the part of the structure that its
-- header line carries.
pub mod Newline
pub mod Header
pub mod Line
pub mod Parts
pub mod RoundTrip
pub mod Coalesce
pub mod Foreach
pub mod Key
pub mod Cooked
pub mod Winner
pub mod Group
pub mod Publish
pub mod Gather
pub mod Merge
pub mod Release
pub mod Disband
pub mod Dictionary
mod Tests
mod GroupTests
use audited_objects.Prelude.{ℕ, ◌+◌, Option, none, some, List, [], ◌∷◌, ◌++◌, Bytes, codes, length}
use audited_objects.Prelude.Int.{pos}
use audited_objects.Moment.{Moment}
use audited_objects.Ps.Csv.{format_lu}

-- `struct cmd_audit_s`, without its sets of path actions, its audit group and its flags.
pub record Ca : Type 0 where
  pub ca_cmdid : ℕ
  pub ca_depth : ℕ
  pub ca_pcmdid : ℕ
  pub ca_starttime : Moment
  pub ca_duration : ℕ
  pub ca_prog : Option Bytes
  pub ca_host : Option Bytes
  pub ca_recycled : Option Bytes
  pub ca_rwd : Option Bytes
  pub ca_pccode : Option Bytes
  pub ca_ccode : Option Bytes
  pub ca_pathcode : Option Bytes
  pub ca_line : Option Bytes
  pub ca_freetext : Option Bytes
