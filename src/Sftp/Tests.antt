-- ===== src/Sftp/Tests.antt =====
-- pkg/sftpserver at concrete inputs.

use viking_ftpd.Prelude.{
  ℕ, suc, ◌+◌, ◌≡◌, ◌↔◌, refl, arith, Bool, true, false, Option, none, some, List, [], ◌∷◌, ◌++◌,
  if◌then◌else◌, Bytes, codes, equal, All, inr, map, ◌<◌,
}
use viking_ftpd.Vfs.Counting.{Fault, counting}
use viking_ftpd.Vfs.Session.{Fs, World}
use viking_ftpd.Users.Types.{User, loaded}
use viking_ftpd.Prelude.{pos}
use viking_ftpd.Sftp.Flags.{FileOpenFlags}
use viking_ftpd.Sftp.Handlers
use viking_ftpd.Sftp.Handlers.{SftpRequest, SftpError, filecmd}
use viking_ftpd.Sftp.ReadOnly.{IsRefusedIf, filecmd-IsRefused}
use viking_ftpd.Sftp.Paging.{read_pages, read_pages-roundtrip}
use viking_ftpd.Sftp.Channels.{NewChannel, ssh_string, handle_channels, AreHandled}
use viking_ftpd.Sftp.Channels.Sessions.{handle_channels-AreHandled}
use viking_ftpd.Sftp.Connections.{
  Phase, Conn, Loop, Server, new_server, over_max, registered, Reachable, begin, then_step, accept,
  register, count_in, count_total, count_out, untrack, close, finish, stop, hang_up, Step, doom,
}
use viking_ftpd.Sftp.Connections.Counts.{IsWithin, open_sessions}
use viking_ftpd.Sftp.Connections.Invariant.{slots, admitted, counted, running}
use viking_ftpd.Sftp.Connections.Reached.{
  reachable-IsCounted, IsHandledByNow, stop-IsHandledByNow, IsFinished, wait-IsFinished,
}
use viking_ftpd.Sftp.Connections.Draining.{Drains, IsOwn, work, reachable-Drains}
use viking_ftpd.Sftp.Timeouts.{
  read_or_write, activate, apply_all, begin_handshake, apply_all-deadline,
}
use viking_ftpd.Vfs.Session.{Outcome, ok, err}
use viking_ftpd.Sftp.HostKey.{KeyFiles, KeyFormat, IsKeyDisk, load_or_generate_host_key}
use viking_ftpd.Sftp.HostKey.Stable.{
  IsRepeated, IsKept, IsPrivate, load_or_generate_host_key-IsRepeated,
}
use viking_ftpd.Sftp.AuthorizedKeys
use viking_ftpd.Sftp.AuthorizedKeys.{PublicKey, KeyFile, public_key_callback}
use viking_ftpd.Sftp.AuthorizedKeys.Authorized.{IsAuthorized, public_key_callback-IsAuthorized}

-- a guest, who may read everything and write nothing
abbrev guest : Fs ℕ ℕ Bytes ℕ Fault
guest = record {
  fs = counting;
  user = codes "guest";
  authz = record { can_read = λ u p s. (true, suc s); can_write = λ u p s. (false, suc s) };
  protocol = codes "sftp";
}

abbrev begin_session : World ℕ ℕ Fault
begin_session = record { authority = 0; disk = 0; access_log = [] }

abbrev is_fault : Fault → Fault → Bool
is_fault Fault.no_permission Fault.no_permission = true
is_fault Fault.missing Fault.missing = true
is_fault _ _ = false

abbrev faults : Handlers.Surroundings ℕ Fault
faults = record {
  is_not_exist = is_fault Fault.missing;
  is_permission = is_fault Fault.no_permission;
  unix = λ s. s;
}

abbrev no_flags : FileOpenFlags
no_flags = record {
  read = false;
  write = false;
  append = false;
  creat = false;
  trunc = false;
  excl = false;
}

-- a size of 0 for a file
abbrev truncation : SftpRequest
truncation = record {
  method = codes "Setstat";
  filepath = codes "/f";
  target = [];
  pflags = no_flags;
  has_size = true;
  has_permissions = true;
  has_acmodtime = false;
  size = 0;
  mode = 420;
  atime = 0;
  mtime = 0;
}

filecmd-IsRefused_example :
    IsRefusedIf faults guest true begin_session (filecmd faults guest truncation begin_session)
unfolding equal
filecmd-IsRefused_example =
    filecmd-IsRefused faults guest (refl, refl) (λ p s. refl) truncation begin_session

read_pages-roundtrip_example : read_pages 6 (codes "abcde") 2 0 ≡ some (codes "abcde")
read_pages-roundtrip_example = read_pages-roundtrip (codes "abcde") 2 (omega arith)

-- a shell, then the subsystem, then a command; and a channel for port forwarding
abbrev channels : List NewChannel
channels =
    record {
      channel_type = codes "session";
      accept_succeeds = true;
      requests =
          record { kind = codes "shell"; payload = [] }
          ∷ record { kind = codes "subsystem"; payload = ssh_string (codes "sftp") }
          ∷ record { kind = codes "exec"; payload = ssh_string (codes "ls") }
          ∷ [];
    }
    ∷ record { channel_type = codes "direct-tcpip"; accept_succeeds = true; requests = [] }
    ∷ []

handle_channels-AreHandled_example : AreHandled channels (handle_channels channels)
handle_channels-AreHandled_example =
    handle_channels-AreHandled channels ((omega arith, (omega arith, (omega arith, tt))), (tt, tt))

apply_all-deadline_example :
    (apply_all
      (read_or_write 5 ∷ activate 9 ∷ read_or_write 12 ∷ [])
      (begin_handshake 600 1)).deadline
    ≡ some 612
apply_all-deadline_example =
    apply_all-deadline 600 1 (read_or_write 5 ∷ activate 9 ∷ read_or_write 12 ∷ [])

-- a key and the file that lists it
abbrev key : PublicKey
key = record { kind = codes "ssh-ed25519"; wire = codes "AAAA"; fingerprint = codes "SHA256:x" }

abbrev frogo : User
frogo = record { username = codes "frogo"; password_hash = codes "x"; level = pos 31 }

abbrev players : AuthorizedKeys.Surroundings
players = record {
  root_dir = codes "/mud";
  home_pattern = codes "players/%s";
  sprintf = λ pattern name. codes "players/" ++ name;
  trim_space = λ l. l;
  parse_key = λ l. if equal l (codes "k") then some key else none;
  read_file = λ p. KeyFile.contents (codes "k");
  load_user = λ n. loaded frogo;
}

public_key_callback-IsAuthorized_example :
    (public_key_callback players (codes "frogo") key ≡ some (codes "SHA256:x"))
    ↔ IsAuthorized players (codes "frogo") key
public_key_callback-IsAuthorized_example =
    public_key_callback-IsAuthorized players (codes "frogo") key

-- the one connection of a run, in a phase
abbrev guest_in : Phase → Bool → Bool → Bool → Bool → Conn
guest_in phase tracked is_open is_counted hung_up = record {
  phase = phase;
  tracked = tracked;
  is_open = is_open;
  doomed = false;
  is_counted = is_counted;
  hung_up = hung_up;
  sessions = 0;
  helpers = 0;
}

abbrev server : List Conn → ℕ → ℕ → ℕ → Server
server conns active total wg = record {
  stopping = false;
  loop = Loop.waiting;
  conns = conns;
  active = active;
  total = total;
  wg = wg;
}

serving_once : Reachable 1 (server (guest_in Phase.serving true true true false ∷ []) 1 1 1)
unfolding over_max
serving_once =
    then_step
      (then_step
        (then_step (then_step begin (accept new_server refl))
          (register (record new_server { loop = Loop.holding }) refl refl))
        (count_in (server (registered ∷ []) 0 0 1) [] [] registered refl refl))
      (count_total (server (guest_in Phase.admitted true true false false ∷ []) 1 0 1) [] []
        (guest_in Phase.admitted true true false false) refl refl)

served_once : Reachable 1 (server (guest_in Phase.gone false false true true ∷ []) 0 1 0)
served_once =
    let c0 = guest_in Phase.serving true true true false in
    let c1 = guest_in Phase.serving true true true true in
    let c2 = guest_in Phase.leaving true true true true in
    let c3 = guest_in Phase.untracked false true true true in
    let c4 = guest_in Phase.closed false false true true in
    then_step
      (then_step
        (then_step
          (then_step (then_step serving_once (hang_up (server (c0 ∷ []) 1 1 1) [] [] c0 refl))
            (count_out (server (c1 ∷ []) 1 1 1) [] [] c1 refl (inr (refl, inr refl))))
          (untrack (server (c2 ∷ []) 0 1 1) [] [] c2 refl refl))
        (close (server (c3 ∷ []) 0 1 1) [] [] c3 refl refl))
      (finish (server (c4 ∷ []) 0 1 1) [] [] c4 refl refl)

abbrev one_serving : Server
one_serving = server (guest_in Phase.serving true true true false ∷ []) 1 1 1

abbrev one_served : Server
one_served = server (guest_in Phase.gone false false true true ∷ []) 0 1 0

reachable-IsCounted_example :
    (one_serving.active ≡ slots one_serving.conns)
    × IsWithin 1 (admitted one_serving.conns)
    × (one_serving.total ≡ counted one_serving.conns)
    × (one_serving.wg ≡ running one_serving.conns + open_sessions one_serving.conns)
reachable-IsCounted_example = reachable-IsCounted 1 serving_once

wait-IsFinished_example : All IsFinished one_served.conns × (one_served.active ≡ 0)
wait-IsFinished_example = wait-IsFinished 1 served_once refl

stop-IsHandledByNow_example : All IsHandledByNow one_served.conns
stop-IsHandledByNow_example =
    stop-IsHandledByNow 1 (then_step served_once (stop one_served)) refl (refl, tt)

-- Stop begins while the connection is served
abbrev one_stopping : Server
one_stopping = record one_serving { stopping = true; conns = map doom one_serving.conns }

reachable-Drains_example :
    Drains 1 one_stopping (work one_stopping)
    × ((s' : Server) (step : Step 1 one_stopping s') → IsOwn step → work s' < work one_stopping)
reachable-Drains_example = reachable-Drains 1 (then_step serving_once (stop one_serving)) refl

-- a disk with one file, and keys that are numbers
abbrev read_one : Option Bytes → Outcome (Unit {0}) Bytes
read_one none = err tt
read_one (some text) = ok text

abbrev one_key_file : KeyFiles (Option Bytes) (Unit {0})
one_key_file = record {
  read_file = λ p d. read_one d;
  is_not_exist = λ e. true;
  permissions = λ p d. ok 384;
  write_file = λ p c m d. (ok tt, some c);
}

abbrev parse_one : Bytes → Outcome (Unit {0}) ℕ
parse_one [] = err tt
parse_one (k ∷ text) = ok k

abbrev number_keys : KeyFormat ℕ ℕ (Unit {0})
number_keys = record { parse = parse_one; marshal = λ k. ok (k ∷ []); signer_of = λ k. ok k }

number-eq :
    (k : ℕ) (c : Bytes)
    → ◌≡◌ {A = Outcome (Unit {0}) Bytes} (ok (k ∷ [])) (ok c)
    → parse_one c ≡ ok k
number-eq k [] h = cc
number-eq k (x ∷ c) h = cc

one_key_file-IsKeyDisk : IsKeyDisk one_key_file number_keys
one_key_file-IsKeyDisk = record {
  write_read = λ p c d h. refl;
  write_permissions = λ p c d e h k l. (384, refl, refl);
  marshal_parse = number-eq;
}

load_or_generate_host_key-IsRepeated_example :
    IsRepeated one_key_file number_keys
      (codes "/key")
      (load_or_generate_host_key one_key_file number_keys (ok 7) (codes "/key") none)
    × IsKept one_key_file number_keys
        (codes "/key")
        none
        (load_or_generate_host_key one_key_file number_keys (ok 7) (codes "/key") none)
    × IsPrivate one_key_file number_keys
        (codes "/key")
        none
        (load_or_generate_host_key one_key_file number_keys (ok 7) (codes "/key") none)
load_or_generate_host_key-IsRepeated_example =
    load_or_generate_host_key-IsRepeated one_key_file number_keys one_key_file-IsKeyDisk (ok 7)
      (codes "/key") none
