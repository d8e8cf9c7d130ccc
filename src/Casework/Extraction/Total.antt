-- ===== src/Casework/Extraction/Total.antt =====
-- When an extraction is persisted, src/mei/application/services/extraction.py, and what that adds to the
-- tables.
use middle_east_geopolitic.Common.Float.{Float}
use middle_east_geopolitic.Casework.Extraction.Extends.{Extends}
