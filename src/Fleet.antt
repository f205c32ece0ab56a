-- ===== src/Fleet.antt =====
-- internal/fleet: one sweep over many clusters. `Fleet.Summarize` reduces a cluster's gate verdict to
-- a row and orders the rows, `Fleet.Correlate` finds the signals that clusters share, `Fleet.Sweep`
-- puts the report together.
pub mod Summarize
pub mod Correlate
pub mod Sweep
pub mod Fold
pub mod Exact
pub mod Evidence
pub mod Judge
pub mod Top
mod Ranked
pub mod Row
mod Tests
use kubeagent.Prelude.{ℕ, List, Text}
use kubeagent.Findings.{Level}

pub record Target : Type 0 where
  pub name : Text
  pub context : Text

pub record ClusterSummary : Type 0 where
  pub name : Text
  pub context : Text
  pub verdict : Text
  pub critical : ℕ
  pub warning : ℕ
  pub info : ℕ
  pub blindspots : ℕ
  pub top_issues : List Text

pub record Unreachable : Type 0 where
  pub name : Text
  pub context : Text
  pub reason : Text

-- The two kinds of signal.
pub data Source : Type 0 where
  issue blindspot : Source

pub record Shared : Type 0 where
  pub signal : Text
  pub source : Source
  pub clusters : List Text

-- A set of signals is the list of its elements.
pub record ClusterEvidence : Type 0 where
  pub id : Text
  pub issues : List Text
  pub blindspots : List Text

-- The report, without the constant version of its document.
pub record Report : Type 0 where
  pub verdict : Text
  pub code : ℕ
  pub fail_on : Level
  pub clusters : List ClusterSummary
  pub unreachable : List Unreachable
  pub shared : List Shared
