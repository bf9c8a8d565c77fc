-- ===== src/Matching/Engine.antt =====
-- matching/engine.py, `_rank` and `_one_to_one`, with the types of matching/models.py. Scores are
-- numbers of any type `C`; what is compared with the configuration is the record `Scores`.
pub mod Unique
pub mod OneToOne
pub mod Distinct
use python_arch_testing.Base.{
  Bool, Dict, Eq, List, Option, Text, [], all_of, contains, eq_text, false, filter, if◌then◌else◌,
  insert, keys, length, lex, lookup, map, nat_eq, none, not, some, sort_by, text_le, ◌++◌, ◌==◌,
  ◌∷◌,
}
use python_arch_testing.Rules.Models.{MatchStatus, ambiguous, low_confidence, matched, unmatched}

pub record Candidate (C : Type 0) : Type 0 where
  pub target_id : Text
  pub confidence : C
  pub name_score : C

pub data Reason : Type 0 where
  taken_by_better : Option Text → Text → Reason
  competitor_within_delta : Reason
  other_reason : Text → Reason

pub record MatchResult (C : Type 0) : Type 0 where
  pub source_id : Text
  pub status : MatchStatus
  pub target_id : Option Text
  pub confidence : C
  pub reasons : List Reason
  pub candidates : List (Candidate C)

-- `0.0`, `<=` on scores, and the tests with the threshold, the minimum and the delta of the
-- configuration: the last is `rival.confidence >= best.confidence - delta`.
pub record Scores (C : Type 0) : Type 0 where
  pub no_score : C
  pub score_le : C → C → Bool
  pub meets_threshold : C → Bool
  pub meets_minimum : C → Bool
  pub within_delta : C → C → Bool

module _ {C : Type 0} ⦃e : Eq C⦄ (scores : Scores C) where
  abbrev pub name_of_best : List (Candidate C) → Option Text → C
  name_of_best [] target = scores.no_score
  name_of_best (c ∷ candidates) none = scores.no_score
  name_of_best (c ∷ candidates) (some t) =
      if c.target_id == t then c.name_score else scores.no_score

  pub rank : MatchResult C → C × (C × Text)
  rank m = (m.confidence, (name_of_best m.candidates m.target_id, m.source_id))

  -- Sorting with `reverse=True`: the higher rank comes first.
  pub ranks_before : MatchResult C → MatchResult C → Bool
  unfolding rank
  ranks_before a b = lex scores.score_le (lex scores.score_le text_le) (rank b) (rank a)

  abbrev pub held_target : MatchResult C → Option Text
  held_target m = elim m.status [
    | matched ↦ m.target_id
    | unmatched ↦ none
    | ambiguous ↦ none
    | low_confidence ↦ none
  ]

  abbrev pub group_of : Option (List (MatchResult C)) → List (MatchResult C)
  group_of none = []
  group_of (some group) = group

  -- `holders.setdefault(match.target_id, []).append(match)` for a match that holds a target.
  abbrev pub add_holder :
      Option Text
      → MatchResult C
      → Dict Text (List (MatchResult C))
      → Dict Text (List (MatchResult C))
  add_holder none m holders = holders
  add_holder (some t) m holders = insert t (group_of (lookup t holders) ++ m ∷ []) holders

  pub add_holders :
      List (MatchResult C) → Dict Text (List (MatchResult C)) → Dict Text (List (MatchResult C))
  add_holders [] holders = holders
  add_holders (m ∷ results) holders = add_holders results (add_holder (held_target m) m holders)

  -- Every match of a group but the best, with the best.
  abbrev pub behind_first : List (MatchResult C) → List (MatchResult C × MatchResult C)
  behind_first [] = []
  behind_first (winner ∷ others) = map (λ loser. (loser, winner)) others

  pub losers_of : Dict Text (List (MatchResult C)) → List (MatchResult C × MatchResult C)
  unfolding ranks_before
  losers_of [] = []
  losers_of ((t, group) ∷ holders) = behind_first (sort_by ranks_before group) ++ losers_of holders

  abbrev pub rival_near : List (Candidate C) → C → Bool
  rival_near [] best = false
  rival_near (rival ∷ others) best = scores.within_delta rival.confidence best

  -- The status that the best free candidate gives.
  abbrev pub status_of_free : Candidate C → List (Candidate C) → MatchStatus
  status_of_free best others =
      if scores.meets_threshold best.confidence
      then (if rival_near others best.confidence then ambiguous else matched)
      else if scores.meets_minimum best.confidence
      then low_confidence
      else unmatched

  abbrev pub target_unless_unmatched : MatchStatus → Text → Option Text
  target_unless_unmatched unmatched t = none
  target_unless_unmatched matched t = some t
  target_unless_unmatched ambiguous t = some t
  target_unless_unmatched low_confidence t = some t

  abbrev pub delta_reason : MatchStatus → List Reason
  delta_reason ambiguous = competitor_within_delta ∷ []
  delta_reason s = []

  -- `c for c in loser.candidates if c is not best`, for the first free candidate: it is also the first
  -- one with its target.
  pub without_first : Text → List (Candidate C) → List (Candidate C)
  without_first t [] = []
  without_first t (c ∷ candidates) =
      if c.target_id == t then candidates else c ∷ without_first t candidates

  -- The match of a loser, from its candidates that nobody holds; the best of them moves to the front.
  pub replaced : MatchResult C → MatchResult C → List (Candidate C) → MatchResult C
  unfolding without_first
  replaced loser winner [] = record loser {
    status = unmatched;
    target_id = none;
    confidence = scores.no_score;
    reasons = loser.reasons ++ taken_by_better loser.target_id winner.source_id ∷ [];
  }
  replaced loser winner (best ∷ others) = record loser {
    status = status_of_free best others;
    target_id = target_unless_unmatched (status_of_free best others) best.target_id;
    confidence = best.confidence;
    candidates = best ∷ without_first best.target_id loser.candidates;
    reasons =
        (loser.reasons ++ taken_by_better loser.target_id winner.source_id ∷ [])
        ++ delta_reason (status_of_free best others);
  }

  abbrev pub add_taken : Option Text → List Text → List Text
  add_taken none taken = taken
  add_taken (some t) taken = t ∷ taken

  abbrev pub free_candidates : List Text → MatchResult C → List (Candidate C)
  free_candidates taken loser = filter (λ c. not (contains taken c.target_id)) loser.candidates

  -- The loop over the losers.
  pub replace_losers :
      List (MatchResult C × MatchResult C)
      → List Text
      → Dict Text (MatchResult C)
      → Dict Text (MatchResult C)
  unfolding replaced
  replace_losers [] taken changed = changed
  replace_losers ((loser, winner) ∷ losers) taken changed =
      let next = replaced loser winner (free_candidates taken loser) in
      replace_losers losers (add_taken (held_target next) taken)
        (insert loser.source_id next changed)

  abbrev pub changed_or : MatchResult C → Option (MatchResult C) → MatchResult C
  changed_or m none = m
  changed_or m (some changed) = changed

  unfoldable pub one_to_one : List (MatchResult C) → List (MatchResult C)
  unfolding add_holders losers_of replace_losers
  one_to_one results =
      let holders = add_holders results [] in
      let losers = sort_by (λ a b. ranks_before a.0 b.0) (losers_of holders) in
      let changed = replace_losers losers (keys holders) [] in
      if all_of (λ h. nat_eq (length h.1) 1) holders
      then results
      else map (λ m. changed_or m (lookup m.source_id changed)) results
