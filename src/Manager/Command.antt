-- ===== src/Manager/Command.antt =====
-- How the manager takes a command of the console apart (src/fss_manager.c).
pub mod Words
use file_sync_system.Common.{Option, none, some, if◌then◌else◌}
use file_sync_system.Common.Text.{Text, codes, str_eq, strtok}

-- A command with the directories that it names, `none` for NULL.
pub data Request : Type 0 where
  add : (source_dir target_dir : Option Text) → Request
  status : (source_dir : Option Text) → Request
  sync : (source_dir : Option Text) → Request
  cancel : (source_dir : Option Text) → Request
  shutdown : Request
  wrong : Request

abbrev pub delims : Text
delims = codes " \n"

-- What the branch of the action reads from the rest of the buffer: `add` by two calls of `strtok`,
-- and `status`, `sync` and `cancel` by one, which `add` makes first.
unfoldable pub request : (action rest : Text) → Request
request action rest =
    let (source_dir, rest') = strtok delims rest in
    if str_eq action (codes "add")
    then add source_dir (strtok delims rest').0
    else if str_eq action (codes "status")
    then status source_dir
    else if str_eq action (codes "sync")
    then sync source_dir
    else if str_eq action (codes "cancel")
    then cancel source_dir
    else if str_eq action (codes "shutdown")
    then shutdown
    else wrong

-- `none` is `strcmp` on NULL, for a buffer without a token.
unfoldable pub parse_action : Option Text × Text → Option Request
parse_action (none, rest) = none
parse_action (some action, rest) = some (request action rest)

unfoldable pub parse_command : Text → Option Request
parse_command buffer = parse_action (strtok delims buffer)
