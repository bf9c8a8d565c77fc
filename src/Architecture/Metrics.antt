-- ===== src/Architecture/Metrics.antt =====
-- architecture/views.py: `metrics`, the fan-in and fan-out of each module. `instability`, their
-- quotient, is a float and not modelled.
use python_arch_testing.Base.{
  Dict, List, Text, [], eq_text, if◌then◌else◌, insert, keys, length, map, set_default, sort_by,
  text_le, ℕ, ◌==◌, ◌∷◌,
}
pub mod Coupled
use python_arch_testing.Architecture.Edges.{Edge, add, get_ends}

pub record ModuleMetrics : Type 0 where
  pub fan_in : ℕ
  pub fan_out : ℕ

-- The two dictionaries of the loop.
pub record Couplings : Type 0 where
  pub users : Dict Text (List Text)
  pub used : Dict Text (List Text)

-- `d.setdefault(key, set()).add(a)`, for its effect on `d`.
pub add_at : Text → Text → Dict Text (List Text) → Dict Text (List Text)
add_at key a d = insert key (add a (get_ends key d)) d

-- The body of the loop.
pub couple : Edge → Couplings → Couplings
unfolding add_at
couple edge c = if edge.0 == edge.1 then c else record {
  users = set_default edge.0 [] (add_at edge.1 edge.0 c.users);
  used = set_default edge.1 [] (add_at edge.0 edge.1 c.used);
}

pub couplings : List Edge → Couplings → Couplings
unfolding couple
couplings [] c = c
couplings (edge ∷ edges) c = couplings edges (couple edge c)

pub metrics : List Edge → Dict Text ModuleMetrics
unfolding couplings
metrics edges =
    let c = couplings edges (record { users = []; used = [] }) in
    map
      (λ m.
        (m, record { fan_in = length (get_ends m c.users); fan_out = length (get_ends m c.used) }))
      (sort_by text_le (keys c.users))
