-- ===== src/Tests/Matches.antt =====
-- The matching step at two sources that both picked the target `store`.
use python_arch_testing.Base.{
  In, List, Text, [], codes, eq_nat, eq_text, inl, insert, leb, lookup, refl, some, sort_by,
  text_eq, ℕ, ◌+◌, ◌∷◌, ◌≡◌,
}
use python_arch_testing.Rules.Models.{matched}
use python_arch_testing.Matching.Engine.{
  MatchResult, Scores, Candidate, one_to_one, taken_by_better,
}
use python_arch_testing.Matching.Engine.Distinct.{one_to_one_unique}

abbrev save : Text
save = codes "save"

abbrev load : Text
load = codes "load"

abbrev store : Text
store = codes "store"

abbrev read_all : Text
read_all = codes "read_all"

-- Scores from 0 to 100, a threshold of 70, a minimum of 40 and a delta of 5.
abbrev percent : Scores ℕ
percent = record {
  no_score = 0;
  score_le = leb;
  meets_threshold = λ c. leb 70 c;
  meets_minimum = λ c. leb 40 c;
  within_delta = λ rival best. leb best (rival + 5);
}

abbrev candidate : Text → ℕ → Candidate ℕ
candidate target score = record { target_id = target; confidence = score; name_score = score }

abbrev save_match : MatchResult ℕ
save_match = record {
  source_id = save;
  status = matched;
  target_id = some store;
  confidence = 90;
  reasons = [];
  candidates = candidate store 90 ∷ [];
}

abbrev load_match : MatchResult ℕ
load_match = record {
  source_id = load;
  status = matched;
  target_id = some store;
  confidence = 85;
  reasons = [];
  candidates = candidate store 85 ∷ candidate read_all 75 ∷ [];
}

-- The match of `load` after the step: its second candidate, which was free.
abbrev load_moved : MatchResult ℕ
load_moved = record {
  source_id = load;
  status = matched;
  target_id = some read_all;
  confidence = 75;
  reasons = taken_by_better (some store) save ∷ [];
  candidates = candidate read_all 75 ∷ candidate store 85 ∷ [];
}

abbrev both : List (MatchResult ℕ)
both = load_match ∷ save_match ∷ []

moves_loser : one_to_one percent both ≡ load_moved ∷ save_match ∷ []
unfolding one_to_one insert text_eq lookup sort_by
moves_loser = refl

moved_there : In load_moved (one_to_one percent both)
unfolding one_to_one insert text_eq lookup sort_by
moved_there = inl refl

one_to_one_unique_example : load_moved.source_id ≡ load
one_to_one_unique_example =
    one_to_one_unique percent both read_all load_moved load_moved moved_there moved_there refl refl
