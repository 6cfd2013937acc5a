-- ===== src/Matcher/Trust.antt =====
-- The trust levels and the data types of crates/vidcull-matcher/src/cluster.rs.
use vidcull.Prelude.{ℕ, Bool, true, false, not, List, map, ltb, if◌then◌else◌}
use vidcull.Core.{FileId, TrustLevel, exact, very_likely, possible}

unfoldable pub trust_strength : TrustLevel → ℕ
trust_strength exact = 3
trust_strength very_likely = 2
trust_strength possible = 1

unfoldable pub stronger : TrustLevel → TrustLevel → TrustLevel
unfolding trust_strength
stronger a b = if ltb (trust_strength a) (trust_strength b) then b else a

unfoldable pub is_transitive : TrustLevel → Bool → Bool
is_transitive possible non_transitive = false
is_transitive _ non_transitive = not non_transitive

abbrev pub is_possible : TrustLevel → Bool
is_possible possible = true
is_possible _ = false

pub record GroupMembership : Type 0 where
  pub group_id : ℕ
  pub trust : TrustLevel
  pub members : List FileId
  pub non_transitive : Bool

pub record ClusterMember : Type 0 where
  pub file_id : FileId
  pub trust : TrustLevel

pub record Cluster : Type 0 where
  pub members : List ClusterMember
  pub representative_trust : TrustLevel
  pub group_ids : List ℕ

unfoldable pub member_ids : Cluster → List FileId
member_ids c = map (λ m. m.file_id) c.members
