-- ===== src/Tests/Services.antt =====
-- Three front-end servers, and a short file.
use google_cloud_final.Base.{ℕ, ◌≡◌, refl, Bool, true, false, [], ◌∷◌, ◌++◌, some, arith}
use google_cloud_final.Text.{codes}
use google_cloud_final.Outcome.{done}
use google_cloud_final.FileHandler.{convert_binary_to_str, convert_str_to_binary}
use google_cloud_final.FileHandler.RoundTrip.{convert_lem}
use google_cloud_final.LoadBalancer.{Server, next_server}
use google_cloud_final.LoadBalancer.Rotation.{next_server-running}

abbrev server_at : ℕ → Bool → Server
server_at port_number up = record { address = codes "10.0.0.1"; port = port_number; running = up }

convert_example :
    convert_str_to_binary (convert_binary_to_str (255 ∷ 10 ∷ [])) ≡ done (255 ∷ 10 ∷ [])
convert_example = convert_lem 255 (10 ∷ []) (omega arith, (omega arith, tt))

next_server_example :
    next_server ((server_at 1 false ∷ []) ++ server_at 2 true ∷ server_at 3 true ∷ [])
    ≡ done (
      some (server_at 2 true),
      (server_at 3 true ∷ []) ++ ((server_at 1 false ∷ []) ++ server_at 2 true ∷ []),
    )
next_server_example =
    next_server-running (server_at 1 false ∷ []) (server_at 2 true) (server_at 3 true ∷ [])
      (refl, tt) refl
