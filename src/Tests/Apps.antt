-- ===== src/Tests/Apps.antt =====
-- The application on concrete inputs.
use lex_leo.Prelude.{
  ◌≡◌, ◌≢◌, ◌↔◌, ◌+◌, refl, true, false, none, some, [], ◌∷◌, ◌++◌, arith, codes, List, ℕ,
}
use lex_leo.Status.{OsalFileStatus}
use lex_leo.Memory.{World, Resource, block, pure, orphans, allocated}
use lex_leo.Memory.Balance.{Returns, returns, Settles}
use lex_leo.FsStream.{FileOps}
use lex_leo.FsStream.Neutral.{Neutral}
use lex_leo.StdioStream.{StdioOps}
use lex_leo.UtcTimestamp.{ℤ, pos}
use lex_leo.Logger.{OsalTimeStatus, prefix_text}
use lex_leo.LogPath.{
  before_last_slash, dirs_of, inner_dirs, parent_dirs, osal_isspace, lexleo_app_resolve_log_path,
  try_read_bytes,
}
use lex_leo.LogPath.Bounds.{Resolved, lexleo_app_resolve_log_path-Resolved}
use lex_leo.LogPath.Config.{
  Layout, IsLayout, IsLine, section_line, entry_line,
  lexleo_app_try_read_log_path_from_config-entry,
}
use lex_leo.LogPath.Parents.{Among, IsParent, parent_dirs_iff}
use lex_leo.LogPath.Platforms.{
  IsOnDrive, drive_root, win32_dirs_of, win32_parent_dirs, win32_parent_dirs_iff,
}
use lex_leo.App.{
  LexleoApp, lexleo_app_default_cfg, lexleo_app_destroy, lexleo_app_supported_cfg,
  lexleo_app_supported_io_cfg, lexleo_app_supported_action, new_app,
}
use lex_leo.App.Release.{owned, lexleo_app_destroy-Settles}
use lex_leo.App.Owner.{lexleo_app_init_stream_owner_opaque}
use lex_leo.App.Owner.Outcome.{OwnerMade}
use lex_leo.App.Owner.Ownership.{lexleo_app_init_stream_owner_opaque-OwnerMade}
use lex_leo.App.Init.{lexleo_app_create_init}
use lex_leo.App.Init.Creation.{AppCreated, lexleo_app_create_init-AppCreated}
use lex_leo.App.Run.{cli_main}
use lex_leo.App.Run.Whole.{cli_main-Settles}
use lex_leo.Tests.{world_of, empty_world, buffer_stream}
use lex_leo.Stream.Ownership.{own_stream}

abbrev file_ops : FileOps
file_ops = record {
  read = λ f n. pure ([], OsalFileStatus.eof);
  write = λ f src n. pure (n, OsalFileStatus.ok);
  flush = λ f. pure OsalFileStatus.ok;
}

abbrev stdio_ops : StdioOps
stdio_ops = record {
  read = λ k n. pure [];
  write = λ k src n. pure n;
  flush = λ k. pure false;
  error = λ k. pure false;
  eof = λ k. pure true;
}

neutral : Neutral file_ops
neutral = record { write = λ f src n w. returns (λ r. refl); flush = λ f w. returns (λ r. refl) }

-- A time that could not be read.
abbrev no_time : OsalTimeStatus × ℤ
no_time = (OsalTimeStatus.error, pos 0)

lexleo_app_resolve_log_path-Resolved_example :
    Returns
      (Resolved 1024 empty_world)
      (lexleo_app_resolve_log_path [] (some (codes "/home/leo")) 1024 empty_world)
lexleo_app_resolve_log_path-Resolved_example =
    lexleo_app_resolve_log_path-Resolved [] (some (codes "/home/leo")) 1024 empty_world

parent_dirs_log : parent_dirs (codes "/var/log/leo") ≡ some (codes "/var" ∷ codes "/var/log" ∷ [])
unfolding parent_dirs before_last_slash dirs_of inner_dirs
parent_dirs_log = refl

parent_dirs_iff_example :
    Among (codes "/var") (codes "/var" ∷ codes "/var/log" ∷ [])
    ↔ IsParent 47 (codes "/var") (codes "/var/log/leo")
parent_dirs_iff_example =
    parent_dirs_iff (codes "/var/log/leo") (codes "/var" ∷ codes "/var/log" ∷ []) parent_dirs_log
      (codes "/var")

abbrev drive_path : List ℕ
drive_path = codes "C:" ++ 92 ∷ codes "a" ++ 92 ∷ codes "x.log"

abbrev drive_dirs : List (List ℕ)
drive_dirs = (codes "C:" ++ 92 ∷ codes "a") ∷ []

win32_parent_dirs_drive : win32_parent_dirs drive_path ≡ some drive_dirs
unfolding win32_parent_dirs before_last_slash win32_dirs_of drive_root inner_dirs
win32_parent_dirs_drive = refl

win32_parent_dirs_iff_example :
    Among (codes "C:" ++ 92 ∷ codes "a") drive_dirs
    ↔ IsOnDrive (codes "C:" ++ 92 ∷ codes "a") drive_path
win32_parent_dirs_iff_example =
    win32_parent_dirs_iff drive_path drive_dirs win32_parent_dirs_drive
      (codes "C:" ++ 92 ∷ codes "a")

abbrev layout : Layout
layout = record {
  section_indent = [];
  section_tail = 13 ∷ 10 ∷ [];
  key_indent = 9 ∷ [];
  before_equals = 32 ∷ [];
  after_equals = 32 ∷ [];
  value_tail = 10 ∷ [];
}

layout-IsLayout : IsLayout layout
unfolding osal_isspace
layout-IsLayout = record {
  section_indent = tt;
  section_tail = (refl, (refl, tt));
  key_indent = (refl, tt);
  before_equals = (refl, tt);
  after_equals = (refl, tt);
  value_tail = (refl, tt);
}

abbrev config_bytes : List ℕ
config_bytes = section_line layout ++ (entry_line layout (codes "/x y") ++ codes "more")

section_line-IsLine : IsLine (section_line layout)
section_line-IsLine = record {
  body = codes "[logger]" ++ 13 ∷ [];
  ends = refl;
  single = (refl, (refl, (refl, (refl, (refl, (refl, (refl, (refl, (refl, tt)))))))));
  short = omega arith;
}

abbrev entry_body : List ℕ
entry_body = 9 ∷ codes "log_path = " ++ 34 ∷ codes "/x y" ++ 34 ∷ []

entry_line-IsLine : IsLine (entry_line layout (codes "/x y"))
entry_line-IsLine = record {
  body = entry_body;
  ends = refl;
  single =
      ((
        refl,
        (
          refl,
          (
            refl,
            (
              refl,
              (
                refl,
                (
                  refl,
                  (
                    refl,
                    (
                      refl,
                      (
                        refl,
                        (refl, (refl, (refl, (refl, (refl, (refl, (refl, (refl, (refl, tt))))))))),
                      ),
                    ),
                  ),
                ),
              ),
            ),
          ),
        ),
      ));
  short = omega arith;
}

lexleo_app_try_read_log_path_from_config-entry_example :
    Returns
      (λ o w'. (o ≡ some (codes "/x y")) × Settles [] [] empty_world w')
      (try_read_bytes 1024 config_bytes empty_world)
lexleo_app_try_read_log_path_from_config-entry_example =
    lexleo_app_try_read_log_path_from_config-entry layout layout-IsLayout (codes "/x y")
      (refl, (refl, (refl, (refl, tt)))) (codes "more") 1024 empty_world section_line-IsLine
      entry_line-IsLine (omega arith) refl

-- An application whose machine shares its input.
abbrev small_app : LexleoApp
small_app = record (new_app 50 51) { input = some buffer_stream; vm_in = some buffer_stream }

abbrev small_world : World
small_world = world_of (block 51 ∷ block 50 ∷ own_stream buffer_stream)

lexleo_app_destroy-Settles_example :
    Returns
      (λ _ w'.
        (r : Resource)
        → allocated w' r + owned small_app r + orphans small_world.closes r
          ≡ allocated small_world r + orphans w'.closes r)
      (lexleo_app_destroy (some small_app) small_world)
lexleo_app_destroy-Settles_example =
    lexleo_app_destroy-Settles small_app small_world (λ r. omega arith)

lexleo_app_init_stream_owner_opaque-OwnerMade_example :
    Returns
      (OwnerMade 51 empty_world)
      (lexleo_app_init_stream_owner_opaque small_app.stream_owner empty_world)
lexleo_app_init_stream_owner_opaque-OwnerMade_example =
    lexleo_app_init_stream_owner_opaque-OwnerMade small_app.stream_owner empty_world refl refl refl
      refl

default-supported : lexleo_app_supported_cfg lexleo_app_default_cfg ≡ true
unfolding lexleo_app_default_cfg lexleo_app_supported_cfg lexleo_app_supported_io_cfg
    lexleo_app_supported_action
default-supported = refl

lexleo_app_create_init-AppCreated_example :
    Returns
      (AppCreated lexleo_app_default_cfg empty_world)
      (lexleo_app_create_init lexleo_app_default_cfg [] (some (codes "/home/leo")) empty_world)
lexleo_app_create_init-AppCreated_example =
    lexleo_app_create_init-AppCreated lexleo_app_default_cfg [] (some (codes "/home/leo"))
      empty_world default-supported

no_time_defined : prefix_text no_time ≢ none
unfolding prefix_text
no_time_defined e = cc e

cli_main-Settles_example :
    Returns
      (λ _ w'. Settles [] [] empty_world w')
      (cli_main file_ops stdio_ops no_time no_time [] (some (codes "/home/leo")) empty_world)
cli_main-Settles_example =
    cli_main-Settles file_ops stdio_ops no_time no_time neutral no_time_defined no_time_defined []
      (some (codes "/home/leo")) empty_world
