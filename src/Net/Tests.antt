-- ===== src/Net/Tests.antt =====
-- A process with one open socket, and calls that succeed up to connect: socketutils.hpp and the two
-- server.cpp.
use duke_ece.Prelude.{◌≡◌, refl, true, false, [], ◌∷◌, some}
use duke_ece.Net.{
  Holdings, Answers, minus_one, start_server, build_client, create_host, create_client_or_exit,
  create_client, without,
}
use duke_ece.Net.Resources.{Leaves, build_leaves, create_leaves, OpensOrEnds, opens-Leaves}

abbrev held : Holdings
held = record { sockets = 3 ∷ []; addresses = 0 }

-- The connection is refused.
abbrev refused : Answers
refused = record {
  resolved = true;
  descriptor = some 4;
  option_set = true;
  bound = true;
  listening = true;
  connected = false;
}

-- The delivery back end keeps the socket 4 and the addresses.
refused_connection :
    create_client refused held ≡ (minus_one, record { sockets = 4 ∷ 3 ∷ []; addresses = 1 })
unfolding create_client
refused_connection = refl

refused_by_server :
    build_client refused held ≡ (minus_one, record { sockets = 3 ∷ []; addresses = 1 })
unfolding build_client without
refused_by_server = refl

opens-Leaves_example :
    Leaves held held (start_server refused held)
    × Leaves held (build_leaves refused held) (build_client refused held)
    × Leaves held (create_leaves refused held) (create_client refused held)
    × OpensOrEnds held (create_host refused held)
    × OpensOrEnds held (create_client_or_exit refused held)
opens-Leaves_example = opens-Leaves refused held
