-- ===== src/Winres/Query.antt =====
-- `queryPasswordDaemon` and `udpReceived` of core/modules/run-virt/winres/src/winres.c: the guest
-- asks for the password, and takes the reply. What the network answers is a parameter.
use mltk.Common.{
  ℕ, ◌-◌, ◌%◌, Bool, true, false, not, ◌||◌, List, Option, none, some, List, [], if◌then◌else◌,
  ◌==◌, take, ℤ, pos, negsuc, atoi,
}
use mltk.Winres.Secret.{keylen, udp_received}
use mltk.Winres.Mount.{Windows}
use mltk.Winres.Shares.{Call, Mounts, mount_network_shares}

-- `(u_short)` of an `int`.
abbrev pub u_short : ℤ → ℕ
u_short (pos n) = n % 65536
u_short (negsuc n) = 65535 - n % 65536

-- The values of the static variables that shares.dat set.
pub record Remote : Type 0 where
  pub shost : List ℕ
  pub sport : List ℕ
  pub bkey1 : List ℕ
  pub bkey2 : List ℕ

-- What `makeWindow`, `WSAStartup`, `socket` and `sendto` give.
pub record System : Type 0 where
  pub window_error : ℕ
  pub wsa_startup : ℕ
  pub has_socket : Bool
  pub sent_bytes : ℕ

-- `spass`, and the static variables of `queryPasswordDaemon`, with whether `sock` holds a socket.
pub record Query : Type 0 where
  pub spass : Option (List ℕ)
  pub wsa_init : ℕ
  pub sock : Bool

-- A call of `sendto`.
pub record Datagram : Type 0 where
  pub address : List ℕ
  pub port : ℕ
  pub payload : List ℕ

pub record Asked : Type 0 where
  pub code : ℤ
  pub sent : Option Datagram
  pub after : Query

abbrev pub request : Remote → Datagram
request remote = record {
  address = remote.shost;
  port = u_short (atoi remote.sport);
  payload = take keylen remote.bkey1;
}

abbrev pub ended : ℤ → Query → Asked
ended code q = record { code = code; sent = none; after = q }

-- The call of `sendto`, where no password is there.
abbrev pub send_request : System → Remote → Query → Asked
send_request sys remote q = record {
  code = if sys.sent_bytes == keylen then negsuc 0 else pos 4;
  sent = some (request remote);
  after = q;
}

abbrev pub with_socket : System → Remote → Query → Asked
with_socket sys remote q =
    if q.sock || sys.has_socket
    then send_request sys remote (record q { sock = true })
    else ended (pos 3) q

abbrev pub init_wsa : System → Query → Query
init_wsa sys q = if q.wsa_init == 1337 then record q { wsa_init = sys.wsa_startup } else q

abbrev pub with_wsa : System → Remote → Query → Asked
with_wsa sys remote q = if q.wsa_init == 0 then with_socket sys remote q else ended (pos 2) q

abbrev pub is_known : Option (List ℕ) → Bool
is_known none = false
is_known (some spass) = true

unfoldable pub query_password_daemon : System → Bool → Remote → Query → Asked
query_password_daemon sys share_file_ok remote q =
    if not share_file_ok || is_known q.spass
    then ended (pos 0) q
    else if sys.window_error == 0
    then with_wsa sys remote (init_wsa sys q)
    else ended (pos 6) q

-- The password and the drives, between the two functions, and the calls of `postSuccessfulMount`.
pub record Received : Type 0 where
  pub query : Query
  pub mounts : Mounts
  pub calls : List Call

abbrev pub take_password :
    Windows → Bool → Option (List ℕ) → Query → Mounts → Option (List ℕ) → Received
take_password w share_file_ok suser q m none = record { query = q; mounts = m; calls = [] }
take_password w share_file_ok suser q m (some pass) =
    let r = mount_network_shares w share_file_ok (record { suser = suser; spass = some pass }) m in
    record { query = record q { spass = some pass }; mounts = r.1; calls = r.2 }

-- The whole of `udpReceived`, which goes on to the drives. It closes the socket; `sock` is left.
unfoldable pub receive :
    Windows → Bool → Option (List ℕ) → Remote → List ℕ → Query → Mounts → Received
receive w share_file_ok suser remote datagram q m =
    take_password w share_file_ok suser q m (udp_received remote.bkey2 datagram)
