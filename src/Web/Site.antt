-- ===== src/Web/Site.antt =====
-- frontendServer/response.h, frontendServer/admin.h and the globals of frontendServer/response.cc:
-- what a request reads and changes, and what the web server uses of the other parts.
use google_cloud_final.Base.{ℕ, Bool, List, Option}
use google_cloud_final.Text.{Bytes}
use google_cloud_final.Number.{ℤ}
use google_cloud_final.Map.{Map}
use google_cloud_final.Connection.{Connection}
use google_cloud_final.Outcome.{Outcome}
use google_cloud_final.Storage.{FileInfo}
use google_cloud_final.Mail.{Email}

-- The operations of class `Storage`, over its objects `D` and the world `W`.
pub record Drive (D W : Type 0) : Type 0 where
  pub new_storage : Bytes → W → Outcome (D × W)
  pub register : Bytes → Bytes → D → W → Outcome (Bool × D × W)
  pub sign_in : Bytes → Bytes → D → W → Outcome (Bool × D × W)
  pub path : D → List FileInfo
  pub refresh_upload : D → W → Outcome (Option (List FileInfo) × D × W)
  pub open_folder : Bytes → Bytes → D → W → Outcome (Option (List FileInfo) × D × W)
  pub go_back : ℕ → D → W → Outcome (Option (List FileInfo) × D × W)
  pub delete_file : Bytes → Bytes → Bytes → D → W → Outcome (Bool × D × W)
  pub rename_file : Bytes → Bytes → Bytes → D → W → Outcome (Bool × D × W)
  pub create_folder : Bytes → Bytes → Bytes → D → W → Outcome (Bool × D × W)
  pub upload_file : Bytes → Bytes → Bytes → Bytes → Bytes → D → W → Outcome (Bool × D × W)
  pub download_file : Bytes → Bytes → D → W → Outcome (Option Bytes × D × W)
  pub move_file : Bytes → Bytes → D → W → Outcome (Bool × D × W)
  pub get_accessible_moving_path : Bytes → D → List FileInfo

-- The system and the mail client: the pages, the order in which an `unordered_map` is walked, the
-- clock, a new process, a text that is sent to an address (its failure is not looked at), whether
-- `connect` succeeds, the list of the data servers, the file of the web servers, a file that is
-- written (`none` if it cannot be opened), and the functions of webmail/client.cc.
pub record Host (W : Type 0) : Type 0 where
  pub html : Bytes → Option Bytes
  pub walk : List (Bytes × Bytes) → List (Bytes × Bytes)
  pub get_time : W → Bytes
  pub start_process : List Bytes → W → W
  pub send_to : Bytes → ℤ → Bytes → W → W
  pub reach : Bytes → ℤ → W → Bool × W
  pub get_state : Bytes → Bytes → W → Outcome (Bytes × W)
  pub server_file : W → Bytes
  pub write_file : Bytes → Bytes → W → Option W
  pub recvfrom_backend : Bytes → Bytes → Bool → W → Outcome (List Email × W)
  pub update_backend : Bytes → Bytes → List Bytes → Bool → W → Outcome W
  pub sendto_smpt_server : Bytes → Bytes → List Bytes → Bytes → W → Outcome W

-- `Server` of frontendServer/admin.h
pub record Server : Type 0 where
  pub address : Bytes
  pub port : ℤ
  pub running : Bool

-- The members of `response`, the connection to the client, and the globals.
pub record Web (D W : Type 0) : Type 0 where
  pub status : Bytes
  pub version : Bytes
  pub header : Map Bytes
  pub client : Connection
  pub sessions : Map Bytes
  pub username : Bytes
  pub servers : List Server
  pub server_info : List Bytes
  pub all_storages : Map D
  pub inbox : Map (List Email)
  pub outbox : Map (List Email)
  pub world : W
