-- ===== src/Session/Ask.antt =====
-- The guest's request for the password, the daemon's answer, and what the guest makes of it.
use mltk.Common.{
  ℕ, ◌≤◌, ◌≡◌, refl, ap, ◌∙◌, Bool, true, false, not, ◌||◌, List, Option, some, if◌then◌else◌, ◌==◌,
  arith, length, take, take_all, All, IsTextByte, pos, negsuc,
}
use mltk.PwDaemon.Keys.{Vars}
use mltk.PwDaemon.Keys.Setup.{IsSetUp}
use mltk.PwDaemon.Serve.{udp_reply}
use mltk.Winres.Secret.{udp_received}
use mltk.Winres.Mount.{Windows}
use mltk.Winres.Shares.{Mounts}
use mltk.Winres.Query.{
  Remote, System, Query, Asked, request, ended, send_request, with_socket, init_wsa, with_wsa,
  is_known, query_password_daemon, take_password, receive,
}
use mltk.Session.Handover.{udp_received-udp_reply}

-- If the code is -1, the request has been sent.
abbrev Sends : Remote → Asked → Type 0
Sends remote a = a.code ≡ negsuc 0 → a.sent ≡ some (request remote)

if-Sends :
    (remote : Remote) (b : Bool) (x y : Asked)
    → Sends remote x
    → Sends remote y
    → Sends remote (if b then x else y)
if-Sends remote true x y hx hy = hx
if-Sends remote false x y hx hy = hy

query_password_daemon-Sends :
    (sys : System) (ok : Bool) (remote : Remote) (q : Query)
    → Sends remote (query_password_daemon sys ok remote q)
unfolding query_password_daemon
query_password_daemon-Sends sys ok remote q =
    let r : Query = init_wsa sys q in
    let asks : Asked = send_request sys remote (record r { sock = true }) in
    if-Sends remote (not ok || is_known q.spass) (ended (pos 0) q)
      (if sys.window_error == 0 then with_wsa sys remote r else ended (pos 6) q) (λ h. cc)
      (if-Sends remote (sys.window_error == 0) (with_wsa sys remote r) (ended (pos 6) q)
        (if-Sends remote (r.wsa_init == 0) (with_socket sys remote r) (ended (pos 2) r)
          (if-Sends remote (r.sock || sys.has_socket) asks (ended (pos 3) r) (λ h. refl) (λ h. cc))
          (λ h. cc))
        (λ h. cc))

known-ended :
    (sys : System) (ok : Bool) (remote : Remote) (q : Query) (pass : List ℕ)
    → q.spass ≡ some pass
    → query_password_daemon sys ok remote q ≡ ended (pos 0) q
unfolding query_password_daemon
known-ended sys true remote q pass known = rw known refl
known-ended sys false remote q pass known = refl

-- If the guest holds the keys of a daemon that is set up with a password of at most 198 bytes, none
-- of them NUL, and a call of queryPasswordDaemon returns -1, then the call has sent a datagram to
-- the address and port of shares.dat that the daemon answers, and udpReceived, given the answer,
-- sets the password. From then on a call returns 0 and sends nothing.
pub query_password_daemon-receive :
    (user password : List ℕ) (v : Vars) (sys : System) (remote : Remote) (q : Query) (w : Windows)
    (suser : Option (List ℕ)) (m : Mounts)
    → IsSetUp user password v
    → All IsTextByte password
    → length password ≤ 198
    → remote.bkey1 ≡ v.key1
    → remote.bkey2 ≡ v.key2
    → (query_password_daemon sys true remote q).code ≡ negsuc 0
    → let asked = query_password_daemon sys true remote q in
      (reply : List ℕ) × (asked.sent ≡ some (request remote))
      × (udp_reply v (request remote).payload ≡ some reply)
      × let now = receive w true suser remote reply asked.after m in
        (now.query.spass ≡ some password)
        × (query_password_daemon sys true remote now.query ≡ ended (pos 0) now.query)
unfolding receive
query_password_daemon-receive user password v sys remote q w suser m s text size at_key1 at_key2
      waits =
    let asked : Asked = query_password_daemon sys true remote q in
    let answer = udp_received-udp_reply user password v s text size in
    let payload : take 16 remote.bkey1 ≡ v.key1 =
      ap (take 16) at_key1 ∙ take_all 16 v.key1 (omega (arith, s.key1_size)) in
    let read : udp_received remote.bkey2 answer.0 ≡ some password =
      ap (λ k. udp_received k answer.0) at_key2 ∙ answer.2 in
    let known : (receive w true suser remote answer.0 asked.after m).query.spass ≡ some password =
      ap (λ o. (take_password w true suser asked.after m o).query.spass) read in
    (
      answer.0,
      query_password_daemon-Sends sys true remote q waits,
      ap (udp_reply v) payload ∙ answer.1,
      (
        known,
        known-ended sys true remote (receive w true suser remote answer.0 asked.after m).query
            password known,
      ),
    )
