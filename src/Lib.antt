-- ===== src/Lib.antt =====
-- Verification of Cyclone, which hands out tasks to the nodes of a cluster to test and to balance the
-- object storage targets (OSTs) of a Lustre file system.
--
-- A task generator fills a queue of tasks. The master pops tasks for the controllers that request them,
-- remembers in a status which controller has which task, and queues the TIDs of finished tasks for the
-- generator. A controller runs one task per worker process. Master and controllers exchange texts whose
-- fields are joined by a `;`. The migration generator moves files from full OSTs to OSTs with room.
--
-- Base         errors as values, code with a state (Exec), lists and tests on the native numbers
-- Text         Python's texts as lists of code points: split, join, strip, int and str
-- Dict         Python's dict with text keys, in the order of insertion
-- Lfs          lfs/lfs_utils.py: Lfs.Items and Lfs.FillLevel read what `lfs` prints, Lfs.Migrate moves a file
-- Proxy        cyclone-database-proxy.py and db/: the loop and the table handler, Proxy.Csv is ost_perf_result.py,
--              Proxy.Rows a database that counts the rows of a statement
-- Task         task/base_task.py and the task classes; Task.Factory is task/task_factory.py,
--              Task.OstMigrate is task/ost_migrate_task.py, Task.Io the payload and the file of task/io_task.py,
--              Task.Io.Measuring its class, and Task.Io.Alert is task/alert_io_task.py
-- Msg          msg/: the classes of messages; Msg.Factory is msg/message_factory.py, Msg.Assign is
--              msg/task_assign.py
-- Ctrl         ctrl/: shared_queue.py, critical_section.py, pid_control.py and task_status_item.py
-- Master       cyclone-master.py: the state and what is done with a message; Master.Loop is the rest of
--              the main loop, with its timeouts and errors
-- Migration    task/generator/lustre_ost_migration_task_generator.py: OST states here, Migration.Caches
--              loads files, Migration.Validation checks the settings, Migration.Dispatch hands out and
--              releases, Migration.Iteration is the loop;
--              Migration.System sets it among the master and the controllers, Migration.Transfer and
--              Migration.Execution follow one file through master, controller and worker to `lfs`
-- Worker       worker.py: the item of the state table and the run loop
-- Controller   cyclone-controller.py: Controller.Workers makes and starts the worker, the main loop
-- Generators   task/generator/: Generators.Benchmark is benchmark_task_generator.py, Generators.Monitoring
--              with its Loop and what its rounds do (Rounds) is lustre_monitoring_task_generator.py
-- Comm         comm/: the handlers with the calls of ZeroMQ that they make
-- Setup        Setup.Conf is conf/, Setup.TaskXml is task/xml/task_xml_reader.py and Setup.Version is
--              version/minimal_python.py
--
-- An object is a record, a method a function from its state to a result and the state after it.
-- What is written before a raise stays written. An exception is one of the kinds of Base.Errors,
-- without its message. What a loop reads from outside (the clock, a message, the lock, whether the
-- generator lives, fill levels, lines of files) is a record for each iteration, so every behaviour
-- of the surroundings is a sequence of such records. Signals are steps between iterations. Times
-- and thresholds are natural numbers, also where a configuration may hold a fraction. A `for` over
-- a list is recursion over the list, so no fuel is needed there; `str` of a number recurs with fuel
-- above the number, which is enough for its digits. Importing a module and calling a class are the
-- parameter Modules of the factory, and a task is told by the texts that `str` makes of its
-- attributes.
--
-- The loop that reads back a file has the length of the file, and one, as fuel; every round but the
-- last takes a character. The programs that `lfs` stands for, the YAML and the XML parser, the
-- database, the mail server, ZeroMQ and floats are parameters, with what they give or raise as a
-- Result. The regular expressions of lfs_utils.py are functions that find the match that the
-- backtracking search finds; the target, which the code puts into one of them, is taken to hold no
-- character with a meaning there. The floats of io_task.py are exact on whole numbers below 2^53,
-- and the number of blocks is right for totals up to there.
--
-- Not modelled: logging, sleeping, parsing of arguments, what `configparser` does with the text of
-- a file, the network itself (a sent message is taken to be sent), the file system but for the PID
-- file, the file of a task and the lines of input files, digits other than ASCII in `int` and in
-- regular expressions, the statement that creates the table of the proxy, a task that has no
-- TID in the dictionary of statuses, and an InterruptedError in the loops of the generators, which
-- ends a pass early. The clock is read once for the three due times that the
-- migration generator sets before its loop.
pub mod Base
pub mod Text
pub mod Dict
pub mod Lfs
pub mod Proxy
pub mod Task
pub mod Msg
pub mod Ctrl
pub mod Master
pub mod Migration
pub mod Worker
pub mod Controller
pub mod Generators
pub mod Comm
pub mod Setup
