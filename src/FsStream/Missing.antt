-- ===== src/FsStream/Missing.antt =====
-- The status of the file backend's constructor where the file does not exist (fs_stream_cr.c).
use lex_leo.Prelude.{ℕ, suc, ◌≡◌, true, Option, none, List, arith}
use lex_leo.Status.{
  StreamStatus, OsalFileStatus, fs_stream_status_from_osal_file_status,
  fs_stream_status_to_stream_status,
}
use lex_leo.Memory.{World, block, refused, granted, calloc, open_file}
use lex_leo.Memory.Balance.{Returns, returns, bind, Reports, reports}
use lex_leo.FsStream.{
  FsStream, supported_mode, valid_path, fs_stream_create, fs_stream_complete_default_init,
  fs_stream_ctor, opened, finish_ctor,
}
use lex_leo.FsStream.Ownership.{fs_stream_close-Delta}

-- The open of a missing file reports NOENT, the initialisation NOT_FOUND, and the constructor
-- IO_ERROR.
pub fs_stream_ctor_missing :
    (path : Option (List ℕ)) (mode : List ℕ) (w : World)
    → valid_path path ≡ true
    → supported_mode mode ≡ true
    → w.grants w.next ≡ true
    → w.answers (suc w.next) ≡ OsalFileStatus.noent
    → Returns (λ (st, o) w'. Reports StreamStatus.io_error st o) (fs_stream_ctor path mode w)
unfolding fs_stream_ctor fs_stream_create calloc fs_stream_complete_default_init open_file opened
    finish_ctor fs_stream_status_from_osal_file_status fs_stream_status_to_stream_status
fs_stream_ctor_missing path mode w good supported room missing =
    let s : FsStream = record { addr = w.next; file = none } in
    rw (room, supported, good)
      (rw (missing, open_file)
        (bind (fs_stream_close-Delta s (refused (granted (block w.next) w)) (λ r. omega arith))
          λ _ w' d. returns reports))
