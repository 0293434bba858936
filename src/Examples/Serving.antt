-- ===== src/Examples/Serving.antt =====
-- Examples for the daemon's keys and its answers.
use mltk.Common.{
  show_ℕ, decimal, ◌≡◌, ◌↔◌, List, [], ◌∷◌, some, codes, true, arith, pos, negsuc, take,
}
use mltk.Examples.Data.{alice, secret, sixteen, urandom, short_device, rand, vars, vars-IsSetUp}
use mltk.PwDaemon.Keys.{Vars, Read, chunk, interrupted, setup_vars}
use mltk.PwDaemon.Keys.Setup.{IsSetUp, setup_vars-IsSetUp}
use mltk.PwDaemon.Serve.{handle_client, udp_reply, mode_query, get_line}
use mltk.PwDaemon.Serve.Access.{handle_client_foreign, udp_reply_iff}
use mltk.PwDaemon.Serve.Query.{get_request, mode_query-handle_client}

abbrev reads : List Read
reads = chunk (7 ∷ 8 ∷ []) ∷ interrupted ∷ chunk (9 ∷ []) ∷ []

setup_vars-IsSetUp_example :
    IsSetUp alice secret (setup_vars urandom short_device rand alice secret).0
setup_vars-IsSetUp_example =
    setup_vars-IsSetUp urandom short_device rand alice secret (ground arith) (ground arith)

handle_client_foreign_example :
    handle_client vars
      (pos 40000)
      1000
      (record { peer_uid = some 1001; request = some (codes "PW") })
    ≡ handle_client vars
        (negsuc 0)
        1000
        (record { peer_uid = some 1001; request = some (codes "GET") })
handle_client_foreign_example =
    handle_client_foreign vars vars (pos 40000) (negsuc 0) 1000 (some (codes "PW"))
      (some (codes "GET")) (some 1001) (ground arith)

udp_reply_iff_example :
    (udp_reply vars sixteen ≡ some vars.password_enc)
    ↔ ((take 16 sixteen ≡ vars.key1) × (vars.password_enc ≡ vars.password_enc))
udp_reply_iff_example = udp_reply_iff alice secret vars sixteen vars.password_enc vars-IsSetUp

abbrev small_vars : Vars
small_vars = record {
  username = alice;
  password_enc = [];
  password_len = 0;
  key1 = 1 ∷ [];
  key2 = 255 ∷ [];
  key1s = codes "01";
  key2s = codes "ff";
}

mode_query-handle_client_example :
    mode_query true true (some (handle_client small_vars (pos 41000) 1000 (get_request 1000)))
    ≡ record { code = 0; printed = get_line small_vars (pos 41000) }
unfolding show_ℕ decimal
mode_query-handle_client_example =
    mode_query-handle_client small_vars 41000 1000 (ground arith) (omega arith)
