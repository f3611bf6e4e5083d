-- ===== src/Frontend/Editor/Connections.antt =====
-- Which handles may be connected.
use supallm.Common.Chars.{Chars}
