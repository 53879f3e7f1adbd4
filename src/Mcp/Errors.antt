-- ===== src/Mcp/Errors.antt =====
-- What the code of mcp/src throws: a `McpToolError` of packages/mcp-schema/src/errors.ts, or a
-- `TypeError` of the language.
use skillplane.Common.{ℕ, String}

pub data McpErrorCode : Type 0 where
  cursor_invalid cursor_filter_mismatch auth_invalid internal_error : McpErrorCode

-- The messages tell two errors of one code apart.
pub data Thrown : Type 0 where
  mcp_tool_error : McpErrorCode → String → ℕ → Thrown
  type_error : Thrown

abbrev pub invalid_cursor : Thrown
invalid_cursor = mcp_tool_error cursor_invalid "The cursor is invalid" 400

abbrev pub expired_cursor : Thrown
expired_cursor = mcp_tool_error cursor_invalid "The cursor has expired" 400

abbrev pub filter_mismatch : Thrown
filter_mismatch =
    mcp_tool_error cursor_filter_mismatch "The cursor does not match the current filters" 400

abbrev pub invalid_grant : Thrown
invalid_grant = mcp_tool_error auth_invalid "The download grant is invalid" 401

abbrev pub expired_grant : Thrown
expired_grant = mcp_tool_error auth_invalid "The download grant has expired" 401

abbrev pub unavailable : Thrown
unavailable = mcp_tool_error internal_error "Download authorization is unavailable" 500
