-- ===== src/Connector/Start.antt =====
-- start and stop of a new connector.
use my_learning.Base.{◌≡◌, refl, Bool, true, false, List, [], ◌∷◌, ok, Run, ◌>>=◌, if◌then◌else◌}
use my_learning.Connector.{Connector, Dialled, starts, stops, step, new_connector}

-- calls of start (`true`) and stop, with what the kernel would answer to a connect
unfoldable pub calls : List (Dialled × Bool) → Connector → Run Connector
calls [] c = ok c
calls ((d, begin) ∷ rest) c = step d (if begin then starts else stops) c >>= calls rest

-- However often start and stop are called on a new connector, it stays as it is: start clears
-- `connect_`, so that it never opens a descriptor.
pub start_lem : (cs : List (Dialled × Bool)) → calls cs new_connector ≡ ok new_connector
unfolding calls step
start_lem [] = refl
start_lem ((d, true) ∷ rest) = start_lem rest
start_lem ((d, false) ∷ rest) = start_lem rest
