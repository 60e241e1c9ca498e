-- ===== src/Transaction/Decision.antt =====
-- The disks that a transaction can leave behind: those from which recovery goes back, and those
-- on which the installation has happened.

use packslip.Base.{
  ◌≡◌, Bool, true, false, List, reverse, All-reverse, Pairwise-reverse, Option, some, All,
}
use packslip.Extract.Names.{Components}
use packslip.Transaction.State.{Entry, Operation, Journal, Disk}
use packslip.Transaction.Stages.{AreSeparate, AreSeparate-sym, AllSeparate, IsSeparate, IsInFlight}
use packslip.Transaction.Cleanup.{Decided, Cleared, journal_of}

abbrev pub before_of : Operation → Option Entry
before_of op = op.before

abbrev pub after_of : Operation → Option Entry
after_of op = op.after

pub AllSeparate-reverse : (ops : List Operation) → AllSeparate ops → AllSeparate (reverse ops)
AllSeparate-reverse ops s = record {
  each = All-reverse IsSeparate ops s.each;
  pairs = Pairwise-reverse AreSeparate ops AreSeparate-sym s.pairs;
}

module _ (scopes : List Components) (ops : List Operation) where
  abbrev pub journal : Bool → Bool → Journal
  journal = journal_of scopes ops

  pub record IsActive (d : Disk) : Type 0 where
    pub journal_is : d.journal ≡ some (journal true false)
    pub in_flight : All (IsInFlight d) ops

  -- A disk from which recovery leads back to the state before the installation.
  pub data Reverts (d : Disk) : Type 0 where
    idle : Cleared before_of ops d → Reverts d
    staged : Decided (journal false false) before_of ops d → Reverts d
    active : IsActive d → Reverts d
    undone : (a : Bool) → Decided (journal a true) before_of ops d → Reverts d

  -- A disk on which the installation has happened.
  pub data Lands (d : Disk) : Type 0 where
    idle : Cleared after_of ops d → Lands d
    decided : Decided (journal true true) after_of ops d → Lands d
