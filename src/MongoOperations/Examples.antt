-- ===== src/MongoOperations/Examples.antt =====
-- A run of the facets of MongoDB calls (domain/mongo_operations.py).
