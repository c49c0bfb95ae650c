-- ===== src/Vfs/Tests.antt =====
-- The theorems of pkg/vfs at concrete inputs.

use viking_ftpd.Prelude.{ℕ, suc, ◌≡◌, refl, true, false, [], ◌∷◌, Bytes, codes, equal}
use viking_ftpd.Prelude.{none}
use viking_ftpd.Lpc.TextFloat.{text_floats}
use viking_ftpd.Users.Types.{LoadError, not_loaded}
use viking_ftpd.Authorization.Authorizer.{Surroundings, Authorizer, new_authorizer, needs_refresh}
use viking_ftpd.Vfs.Outage.{authorizer_authority, perform-outage}
use viking_ftpd.Vfs.Bits.{is_write_flag, bit_and}
use viking_ftpd.Vfs.Listing.{FileInfo}
use viking_ftpd.Vfs.Counting.{Fault, counting}
use viking_ftpd.Vfs.Session.{err, Fs, World}
use viking_ftpd.Vfs.Requests.{open_file_of, rename_of, needs, ask_all, perform}
use viking_ftpd.Vfs.Policy.{refused, perform-refused}
use viking_ftpd.Vfs.Backend.{backend, Served}
use viking_ftpd.Vfs.ReadOnly.{KeptByReads, perform_all, perform_all-KeptByReads}
use viking_ftpd.Vfs.Requests.{mkdir_of}
use viking_ftpd.Vfs.Serving.{perform-Served}

-- write access to /tmp alone; the authority counts the questions
abbrev session : Fs ℕ ℕ Bytes ℕ Fault
session = record {
  fs = counting;
  user = codes "alice";
  authz = record {
    can_read = λ u p s. (true, suc s);
    can_write = λ u p s. (equal p (codes "/tmp"), suc s);
  };
  protocol = codes "ftp";
}

abbrev begin : World ℕ ℕ Fault
begin = record { authority = 0; disk = 0; access_log = [] }

perform-refused_example :
    perform session (rename_of (codes "/tmp") (codes "/d")) begin
    ≡ (err Fault.no_permission, refused session (rename_of (codes "/tmp") (codes "/d")) 2 begin)
unfolding ask_all needs equal
perform-refused_example = perform-refused session (rename_of (codes "/tmp") (codes "/d")) begin refl

perform-Served_example :
    Served session
      (open_file_of (codes "/tmp") 577 511)
      (backend counting (open_file_of (codes "/tmp") 577 511) 0)
      1
      []
      (perform session (open_file_of (codes "/tmp") 577 511) begin)
unfolding ask_all needs equal is_write_flag bit_and
perform-Served_example = perform-Served session (open_file_of (codes "/tmp") 577 511) begin refl

abbrev entry : Bytes → FileInfo
entry n = record { name = n; size = 0; is_dir = false }

-- the access tree cannot be read
abbrev outage : Surroundings Bytes
outage = record {
  now = 400;
  refreshed_at = 400;
  access_data = none;
  load_user = λ _. not_loaded LoadError.user_not_found;
}

abbrev by_authorizer : Fs (Authorizer Bytes) ℕ Bytes ℕ Fault
by_authorizer = record {
  fs = counting;
  user = codes "alice";
  authz = authorizer_authority outage;
  protocol = codes "sftp";
}

abbrev cold : World (Authorizer Bytes) ℕ Fault
cold = record { authority = new_authorizer 300; disk = 0; access_log = [] }

perform-outage_example : perform by_authorizer (rename_of (codes "/tmp") (codes "/d")) cold ≡ (
  err Fault.no_permission,
  refused by_authorizer (rename_of (codes "/tmp") (codes "/d")) (new_authorizer 300) cold,
)
unfolding needs_refresh new_authorizer
perform-outage_example =
    perform-outage by_authorizer outage refl (rename_of (codes "/tmp") (codes "/d")) cold refl
      (λ m offered. let x = offered.1 in absurd (cc))

-- no write access at all
abbrev reader : Fs ℕ ℕ Bytes ℕ Fault
reader = record {
  fs = counting;
  user = codes "guest";
  authz = record { can_read = λ u p s. (true, suc s); can_write = λ u p s. (false, suc s) };
  protocol = codes "sftp";
}

counting-KeptByReads : KeptByReads counting (λ d. d ≡ 0)
counting-KeptByReads = record {
  by_stat = λ p d h. h;
  by_open = λ p d h. h;
  by_open_file = λ p flag m d no_write h. rw no_write h;
  by_file_stat = λ file d h. h;
  by_readdir = λ file d h. h;
  by_close = λ file d h. h;
}

perform_all-KeptByReads_example :
    (perform_all reader
      (mkdir_of (codes "/d") 511
        ∷ open_file_of (codes "/f") 0 420
        ∷ rename_of (codes "/f") (codes "/g")
        ∷ [])
      begin).disk
    ≡ 0
perform_all-KeptByReads_example =
    perform_all-KeptByReads reader (λ d. d ≡ 0) counting-KeptByReads (λ p s. refl)
      (mkdir_of (codes "/d") 511
        ∷ open_file_of (codes "/f") 0 420
        ∷ rename_of (codes "/f") (codes "/g")
        ∷ [])
      begin refl
