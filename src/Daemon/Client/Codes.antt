-- ===== src/Daemon/Client/Codes.antt =====
-- The codes of mobicore/daemon/ClientLib/public/MobiCoreDriverApi.h, several of which share a
-- number there.
use android_hardware_samsung.Common.{ℕ, ◌+◌, ◌/◌, ◌%◌, ◌&&◌, leb, ◌==◌, if◌then◌else◌}

abbrev pub drv_ok : ℕ
drv_ok = 0

abbrev pub err_notification : ℕ
err_notification = 2

abbrev pub err_not_implemented : ℕ
err_not_implemented = 3

abbrev pub err_unknown_device : ℕ
err_unknown_device = 7

abbrev pub err_unknown_session : ℕ
err_unknown_session = 8

-- MC_DRV_ERR_INVALID_OPERATION
abbrev pub err_device_already_open : ℕ
err_device_already_open = 9

abbrev pub err_timeout : ℕ
err_timeout = 11

-- MC_DRV_ERR_NO_FREE_MEMORY
abbrev pub err_invalid_length : ℕ
err_invalid_length = 12

abbrev pub err_session_pending : ℕ
err_session_pending = 14

-- Also SOCKET_CONNECT, SOCKET_WRITE, SOCKET_READ, SOCKET_LENGTH and MCP_ERROR.
abbrev pub err_daemon_unreachable : ℕ
err_daemon_unreachable = 15

-- MC_DRV_ERR_INVALID_PARAMETER: also TCI_TOO_BIG, WSM_NOT_FOUND and TCI_GREATER_THAN_WSM.
abbrev pub err_null_pointer : ℕ
err_null_pointer = 17

-- MC_DRV_ERR_BULK_MAPPING
abbrev pub err_buffer_already_mapped : ℕ
err_buffer_already_mapped = 19

-- MC_DRV_ERR_BULK_UNMAPPING
abbrev pub err_blk_buff_not_found : ℕ
err_blk_buff_not_found = 20

abbrev pub info_notification : ℕ
info_notification = 21

abbrev pub err_daemon_version : ℕ
err_daemon_version = 23

abbrev pub err_daemon_device_not_open : ℕ
err_daemon_device_not_open = 33

-- MC_DRV_ERROR_MAJOR and MC_DRV_ERROR_MCP
abbrev pub error_major : ℕ → ℕ
error_major code = code % 256

abbrev pub error_mcp : ℕ → ℕ
error_mcp code = code / 256 % 256

-- What a failed opening answers: the codes 16 to 23 of the MCP, WRONG_PUBLIC_KEY to
-- UNWRAP_TRUSTLET_FAILED, have codes of their own from 0x19 on.
unfoldable pub open_error : ℕ → ℕ
open_error code =
    if error_major code == err_daemon_unreachable
    then (if leb 16 (error_mcp code) && leb (error_mcp code) 23
        then error_mcp code + 9
        else err_daemon_unreachable)
    else code
