-- ===== src/Examples/Web.antt =====
-- The start of a server and its requests at concrete inputs.
use mod_mp.Base.{
  replicate, length-replicate, codes, pos, ◌≤◌, ◌≡◌, refl, true, false, none, some, List, [], ◌∷◌,
  arith,
}
use mod_mp.ErrorMessages.{ErrorMessages, error_messages_init, max_errors, zeroed}
use mod_mp.ErrorMessages.Invariant.{IsValid, Fits-replicate}
use mod_mp.Input.{Input}
use mod_mp.Indexers.{
  Indexer, IndexManager, file_indexer_callbacks, index_manager_init, index_manager_find_indexer,
}
use mod_mp.Indexers.Registry.{
  register, is_unnamed, named, last_where, answer, index_manager_find_indexer-last_where,
}
use mod_mp.Server.{SrvCfg, Host, Request, mp_config_srv, mod_mp_set_data, child_init}
use mod_mp.Server.Fork.{Forked, child_init-Forked}
use mod_mp.Server.Startup.{IsReady}
use mod_mp.Examples.Platform.{plain_apr}

abbrev host : Host
host = record {
  own_pid = 100;
  shm = record {
    create = 17;
    create_again = 0;
    ipc_stat = pos 0;
    ipc_set = pos 0;
    uid = 48;
    gid = 49;
  };
  segment = some (replicate max_errors zeroed);
  dbd_init = 0;
  opened = λ path. false;
}

abbrev enabled : SrvCfg
enabled = record (mp_config_srv 1) { enable = 1 }

abbrev request : Request plain_apr
request = record {
  output_filters = 7;
  uri = some (codes "/file/list");
  method_number = 0;
  headers_out = plain_apr.table_make;
}

abbrev input : Input plain_apr
input = record {
  method = 0;
  uri = some (codes "/file/list");
  indexer_string = some (codes "file");
  command_string = some (codes "list");
  parameter_strings = none;
}

abbrev music : Indexer
music = record {
  id = codes "m";
  friendly_name = some (codes "music");
  pool = 1;
  callbacks = file_indexer_callbacks;
}

abbrev films : Indexer
films = record music { id = codes "f"; friendly_name = some (codes "films") }

abbrev newer_music : Indexer
newer_music = record music { id = codes "n" }

abbrev three : List Indexer
three = music ∷ newer_music ∷ films ∷ []

index_manager_find_indexer-last_where_example :
    (index_manager_find_indexer plain_apr (register index_manager_init three) (some (codes "music"))
      ≡ some (answer (last_where (named plain_apr (codes "music")) three none)))
    × ((register index_manager_init three).count ≡ 3)
index_manager_find_indexer-last_where_example =
    index_manager_find_indexer-last_where plain_apr three (codes "music")

newer_is_found : last_where (named plain_apr (codes "music")) three none ≡ some newer_music
unfolding last_where named plain_apr
newer_is_found = refl

-- A table in a segment that has a file.
abbrev shared_table : ErrorMessages
shared_table = record error_messages_init { shm_file = some (codes "/tmp/mp_errors") }

shared_table-IsValid : IsValid shared_table
unfolding error_messages_init
shared_table-IsValid = record {
  array = length-replicate max_errors zeroed;
  counted = omega arith;
  fits = Fits-replicate max_errors;
}

abbrev two_nodes : IndexManager
two_nodes = record { count = 2; nodes = music ∷ films ∷ [] }

abbrev ready_server : SrvCfg
ready_server = record enabled {
  error_messages = some shared_table;
  index_manager = some (record { count = 1; nodes = record music { friendly_name = none } ∷ [] });
}

ready_server-IsReady : IsReady ready_server
unfolding error_messages_init mp_config_srv mod_mp_set_data is_unnamed
ready_server-IsReady = record {
  em = shared_table;
  has_em = refl;
  valid = shared_table-IsValid;
  few = omega arith;
  file = refl;
  manager = record { count = 1; nodes = record music { friendly_name = none } ∷ [] };
  has_manager = refl;
  one = refl;
  counted = refl;
  unnamed = refl;
}

shared_file : shared_table.shm_file ≡ some ready_server.errors_shm_file
unfolding mp_config_srv mod_mp_set_data
shared_file = refl

shared_few : shared_table.num_errors ≤ 1
unfolding error_messages_init
shared_few = omega arith

child_init-Forked_example :
    Forked true shared_table 200 ready_server ready_server-IsReady
      (child_init plain_apr true shared_table 200 ready_server)
child_init-Forked_example =
    child_init-Forked plain_apr true shared_table 200 ready_server shared_table-IsValid shared_few
      shared_file ready_server-IsReady

-- A server that is enabled, and one that is not.
abbrev two_servers : List (Host × SrvCfg)
two_servers = (host, enabled) ∷ (host, mp_config_srv 2) ∷ []
