-- ===== src/Connector/Tests.antt =====
-- A connector whose peer refuses it, and one that connects.
use my_learning.Base.{
  ◌⊎◌, ℕ, ◌*◌, ◌^◌, min, ◌≡◌, refl, true, false, [], ◌∷◌, ok, arith, length, ◌>>=◌,
}
use my_learning.Connector.{
  is_connecting, destroy, Connector, Dialled, einprogress, restarts, writable, step, new_connector,
  init_retry_delay_ms, max_retry_delay_ms,
}
use my_learning.Connector.Steps.{idle, dialling, settled, IsValid, is_dialling, step_lem}
use my_learning.Connector.Start.{calls, start_lem}
use my_learning.Connector.Backoff.{refused, refused_lem}

abbrev in_progress : Dialled
in_progress = record { sockfd = 5; errno = einprogress }

-- restart opens descriptor 5, and the callback gets it
connects :
    (step in_progress restarts new_connector >>= step in_progress (writable false false))
    ≡ ok (settled true 500 (5 ∷ []))
unfolding step
connects = refl

step_lem_example :
    (c' : Connector) × (step in_progress (writable true false) (dialling true 1000 5 []) ≡ ok c')
    × IsValid c'
    × ((is_connecting c'.state ≡ true) ⊎ (destroy c' ≡ ok c'))
step_lem_example =
    step_lem in_progress (writable true false) (dialling true 1000 5 [])
      (is_dialling true 1000 5 [] (omega arith, omega arith)) refl

refused_lem_example :
    refused (5 ∷ 6 ∷ 5 ∷ []) (idle true init_retry_delay_ms 1 [])
    ≡ ok (
        idle true
          (min (init_retry_delay_ms * 2 ^ length {A = ℕ} (5 ∷ 6 ∷ 5 ∷ [])) max_retry_delay_ms)
          1
          [])
refused_lem_example = refused_lem (5 ∷ 6 ∷ 5 ∷ []) []

start_lem_example :
    calls ((in_progress, true) ∷ (in_progress, false) ∷ []) new_connector ≡ ok new_connector
start_lem_example = start_lem ((in_progress, true) ∷ (in_progress, false) ∷ [])
