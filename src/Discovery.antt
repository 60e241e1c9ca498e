-- ===== src/Discovery.antt =====
-- `Release` and the errors of the choice in src/discovery.rs.
pub mod Candidates
pub mod Freshness
pub mod Merge
pub mod Recommendation
pub mod Requests
pub mod Tables
pub mod Tests
use packslip.Base.{Bool, List}
use packslip.Base.Text.{Text}

pub record Release : Type 0 where
  pub version : Text
  pub tag : Text
  pub bundles : List Text
  pub recommended : Bool

pub data Error : Type 0 where
  version yanked : Text → Error
  no_release stale_list : Error
