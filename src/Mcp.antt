-- ===== src/Mcp.antt =====
-- The MCP server of ephemora_cell_mcp: the lines that it reads, the messages that it takes them for and
-- what it answers.
pub mod Transport
pub mod Protocol
pub mod Server
